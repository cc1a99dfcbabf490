-- ===== src/Dispatcher/Classify.antt =====
-- internal/dispatcher/dispatcher.go: classifyStatusForMetrics and containsInsensitive, over the bytes
-- of an error's text.
use Prim.Native.Char.{code}
use easy_cron.Prelude.{
  ℕ, ◌+◌, ◌≡◌, ◌↔◌, ◌⊎◌, refl, Bool, true, false, ◌&&◌, ◌||◌, String, Option, none, some, List, [],
  ◌∷◌, if◌then◌else◌, leb, ltb, ◌==◌, length, map, inl, inr, arith, Bool-cases,
}

-- The code points of a text: its bytes, if it is ASCII, as the texts looked for are.
abbrev pub codes : String → List ℕ
codes String.[] = []
codes (String.◌∷◌ letter rest) = code letter ∷ codes rest

-- `if c >= 'A' && c <= 'Z' { c += 32 }`.
unfoldable pub to_lower : ℕ → ℕ
to_lower c = if leb b'A' c && leb c b'Z' then c + 32 else c

-- The body of the inner loop: equal, or equal after both are made lower case.
unfoldable pub same_letter : ℕ → ℕ → Bool
unfolding to_lower
same_letter c1 c2 = if c1 == c2 then true else to_lower c1 == to_lower c2

-- The inner loop, at one start. It never reads past the end: the outer loop stops in time.
unfoldable pub matches_at : List ℕ → List ℕ → Bool
matches_at s [] = true
matches_at [] (d ∷ ds) = false
matches_at (c ∷ cs) (d ∷ ds) = same_letter c d && matches_at cs ds

-- The outer loop over `0 <= i <= len(s) - len(substr)`, on the rest of `s` from `i`.
unfoldable pub scan : List ℕ → List ℕ → Bool
scan [] sub = if ltb 0 (length sub) then false else matches_at [] sub
scan (c ∷ cs) sub =
    let rest = scan cs sub in
    if ltb (length (c ∷ cs)) (length sub)
    then false
    else if matches_at (c ∷ cs) sub
    then true
    else rest

unfoldable pub contains_insensitive : List ℕ → List ℕ → Bool
unfolding scan
contains_insensitive s sub = if ltb (length s) (length sub) then false else scan s sub

unfoldable pub classify_error : List ℕ → String
unfolding contains_insensitive
classify_error err =
    if contains_insensitive err (codes "timeout")
      || contains_insensitive err (codes "deadline exceeded")
    then "timeout"
    else if contains_insensitive err (codes "connection refused")
        || (contains_insensitive err (codes "no such host")
            || (contains_insensitive err (codes "network is unreachable")
                || contains_insensitive err (codes "dial")))
    then "connection_error"
    else "other_error"

unfoldable pub classify_status_for_metrics : ℕ → Option String → String
classify_status_for_metrics status_code none =
    if leb 200 status_code && ltb status_code 300
    then "2xx"
    else if leb 400 status_code && ltb status_code 500
    then "4xx"
    else if leb 500 status_code
    then "5xx"
    else "other_error"
classify_status_for_metrics status_code (some err) = classify_error (codes err)

-- `sub` begins `s`, and `sub` stands somewhere in `s`.
abbrev pub Begins : List ℕ → List ℕ → Type 0
Begins s [] = Unit
Begins [] (d ∷ ds) = ⊥
Begins (c ∷ cs) (d ∷ ds) = (c ≡ d) × Begins cs ds

abbrev pub Contains : List ℕ → List ℕ → Type 0
Contains [] sub = Begins [] sub
Contains (c ∷ cs) sub = Begins (c ∷ cs) sub ⊎ Contains cs sub

same_letter_iff : (c d : ℕ) → (same_letter c d ≡ true) ↔ (to_lower c ≡ to_lower d)
unfolding same_letter
same_letter_iff c d = ground arith

matches_at_iff :
    (s sub : List ℕ) → (matches_at s sub ≡ true) ↔ Begins (map to_lower s) (map to_lower sub)
unfolding matches_at
matches_at_iff s [] = (λ h. tt, λ h. refl)
matches_at_iff [] (d ∷ ds) = (λ h. cc, λ h. absurd h)
matches_at_iff (c ∷ cs) (d ∷ ds) = (
  λ h. ground (arith, same_letter_iff c d, matches_at_iff cs ds),
  λ h. ground (arith, same_letter_iff c d, matches_at_iff cs ds),
)

length_of_Begins :
    (s sub : List ℕ)
    → Begins (map to_lower s) (map to_lower sub)
    → ltb (length s) (length sub) ≡ false
length_of_Begins s [] h = ground arith
length_of_Begins [] (d ∷ ds) h = absurd h
length_of_Begins (c ∷ cs) (d ∷ ds) h = ground (arith, length_of_Begins cs ds h.1)

length_of_Contains :
    (s sub : List ℕ)
    → Contains (map to_lower s) (map to_lower sub)
    → ltb (length s) (length sub) ≡ false
length_of_Contains [] sub h = length_of_Begins [] sub h
length_of_Contains (c ∷ cs) sub (inl h) = length_of_Begins (c ∷ cs) sub h
length_of_Contains (c ∷ cs) sub (inr h) = ground (arith, length_of_Contains cs sub h)

scan_sound : (s sub : List ℕ) → scan s sub ≡ true → Contains (map to_lower s) (map to_lower sub)
unfolding scan
scan_sound [] sub h = (matches_at_iff [] sub).0 (ground arith)
scan_sound (c ∷ cs) sub h = elim (Bool-cases (matches_at (c ∷ cs) sub)) [
  | inl e ↦ inl ((matches_at_iff (c ∷ cs) sub).0 e)
  | inr e ↦ inr (scan_sound cs sub (ground arith))
]

scan_complete : (s sub : List ℕ) → Contains (map to_lower s) (map to_lower sub) → scan s sub ≡ true
unfolding scan
scan_complete [] sub h = ground (arith, length_of_Begins [] sub h, matches_at_iff [] sub)
scan_complete (c ∷ cs) sub (inl h) =
    ground (arith, length_of_Begins (c ∷ cs) sub h, matches_at_iff (c ∷ cs) sub)
scan_complete (c ∷ cs) sub (inr h) =
    ground (arith, length_of_Contains (c ∷ cs) sub (inr h), scan_complete cs sub h)

-- The search finds `sub` in `s` exactly if, with the letters A to Z made lower case in both, `sub`
-- stands in `s`.
pub contains_insensitive_iff :
    (s sub : List ℕ)
    → (contains_insensitive s sub ≡ true) ↔ Contains (map to_lower s) (map to_lower sub)
unfolding contains_insensitive
contains_insensitive_iff s sub = (
  λ h. scan_sound s sub (ground arith),
  λ h. ground (arith, length_of_Contains s sub h, scan_complete s sub h),
)
