-- ===== src/Jobs/Tagged.antt =====
-- internal/store/postgres: the tags that a new job is read back with.
use mathlib.Core.Path.{subst}
use mathlib.Core.List.{append-nil, append_assoc}
use easy_cron.Prelude.{
  ◌≡◌, ◌∙◌, refl, sym, inl, inr, ap, Bool, false, String, List, [], ◌∷◌, ◌++◌, str_eq, map, arith,
  Bool-cases, keep, any, order_by, insert_row,
}
use easy_cron.Domain.{Uuid}
use easy_cron.Jobs.{Tag, TagRow, Tables, is_tag, of_job, upsert_tag, upsert_all}
use easy_cron.Jobs.Lists.{get_tags}

abbrev pub tags_of : Uuid → List TagRow → List Tag
tags_of i rows = map (λ (r : TagRow). r.tag) (keep (of_job i) rows)

abbrev pub has_key : String → Tag → Bool
has_key k t = str_eq t.key k

-- No key is among those before it.
abbrev pub AreNew : List Tag → List Tag → Type 0
AreNew before [] = Unit
AreNew before (t ∷ ts) = (any (has_key t.key) before ≡ false) × AreNew (before ++ (t ∷ [])) ts

any-is_tag :
    (i : Uuid) (k : String) (rows : List TagRow)
    → any (is_tag i k) rows ≡ any (has_key k) (tags_of i rows)
any-is_tag i k [] = refl
any-is_tag i k (r ∷ rows) = ground (arith, any-is_tag i k rows)

tags_of-append :
    (i : Uuid) (t : Tag) (rows : List TagRow)
    → tags_of i (rows ++ (record { job_id = i; tag = t } ∷ [])) ≡ tags_of i rows ++ (t ∷ [])
tags_of-append i t [] = ground arith
tags_of-append i t (r ∷ rows) = ground (arith, tags_of-append i t rows)

tags_of-upsert_tag :
    (i : Uuid) (t : Tag) (rows : List TagRow)
    → any (has_key t.key) (tags_of i rows) ≡ false
    → tags_of i (upsert_tag i rows t) ≡ tags_of i rows ++ (t ∷ [])
tags_of-upsert_tag i t rows h =
    let e : any (is_tag i t.key) rows ≡ false = any-is_tag i t.key rows ∙ h in
    rw e (tags_of-append i t rows)

pub tags_of-upsert_all :
    (i : Uuid) (ts : List Tag) (rows : List TagRow)
    → AreNew (tags_of i rows) ts
    → tags_of i (upsert_all i ts rows) ≡ tags_of i rows ++ ts
tags_of-upsert_all i [] rows h = sym (append-nil (tags_of i rows))
tags_of-upsert_all i (t ∷ ts) rows h =
    let e = tags_of-upsert_tag i t rows h.0 in
    tags_of-upsert_all i ts (upsert_tag i rows t) (subst (λ xs. AreNew xs ts) (sym e) h.1)
    ∙ ap (λ xs. xs ++ ts) e
    ∙ append_assoc (tags_of i rows) (t ∷ []) ts

module _ (key_leb : String → String → Bool) where
  abbrev pub tag_leq : Tag → Tag → Bool
  tag_leq s t = key_leb s.key t.key

  abbrev row_leq : TagRow → TagRow → Bool
  row_leq r q = key_leb r.tag.key q.tag.key

  map-insert_row :
      (r : TagRow) (rows : List TagRow)
      → map (λ (q : TagRow). q.tag) (insert_row row_leq r rows)
        ≡ insert_row tag_leq r.tag (map (λ (q : TagRow). q.tag) rows)
  map-insert_row r [] = refl
  map-insert_row r (q ∷ rows) = elim (Bool-cases (key_leb r.tag.key q.tag.key)) [
    | inl e ↦ rw e refl
    | inr e ↦ rw e (ap (λ ts. q.tag ∷ ts) (map-insert_row r rows))
  ]

  map-order_by :
      (rows : List TagRow)
      → map (λ (q : TagRow). q.tag) (order_by row_leq rows)
        ≡ order_by tag_leq (map (λ (q : TagRow). q.tag) rows)
  map-order_by [] = refl
  map-order_by (r ∷ rows) =
      map-insert_row r (order_by row_leq rows) ∙ ap (insert_row tag_leq r.tag) (map-order_by rows)

  -- The tags of a job that had none, after those of the input were written.
  pub get_tags-new :
      (i : Uuid) (ts : List Tag) (t t' : Tables)
      → t'.tags ≡ upsert_all i ts t.tags
      → keep (of_job i) t.tags ≡ []
      → AreNew [] ts
      → get_tags key_leb i t' ≡ order_by tag_leq ts
  unfolding get_tags
  get_tags-new i ts t t' e none_yet d =
      let fresh : tags_of i t.tags ≡ [] = ap (map (λ (q : TagRow). q.tag)) none_yet in
      let all : tags_of i (upsert_all i ts t.tags) ≡ ts =
        tags_of-upsert_all i ts t.tags (subst (λ xs. AreNew xs ts) (sym fresh) d)
        ∙ ap (λ xs. xs ++ ts) fresh in
      map-order_by (keep (of_job i) t'.tags)
      ∙ ap (λ rows. order_by tag_leq (tags_of i rows)) e
      ∙ ap (order_by tag_leq) all
