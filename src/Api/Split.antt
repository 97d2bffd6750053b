-- ===== src/Api/Split.antt =====
-- `split255` (apis/dns/v1alpha1/utils.go): a text, as its bytes, in chunks of 255.
pub mod Chunks
use ksdns.Prelude.{
  ℕ, zero, suc, ◌+◌, ◌-◌, ◌*◌, ◌/◌, ◌≤◌, ◌<◌, ◌≡◌, refl, sym, subst, ap, ◌∙◌, Bool, true, false,
  Option, none, some, List, [], ◌∷◌, ◌++◌, arith, length, concat, All, ltb, leb, ltb→lt, ltb→ge,
  Bool-cases, inl, inr, if◌then◌else◌,
}

module _ {ℓ} {A : Type ℓ} where
  abbrev pub take : ℕ → List A → List A
  take zero xs = []
  take (suc n) [] = []
  take (suc n) (x ∷ xs) = x ∷ take n xs

  abbrev pub drop : ℕ → List A → List A
  drop zero xs = xs
  drop (suc n) [] = []
  drop (suc n) (x ∷ xs) = drop n xs

  -- `s[p:i]`
  abbrev pub slice : List A → ℕ → ℕ → List A
  slice s p i = take (i - p) (drop p s)

  -- The loop, with fuel; `none` is that the fuel ran out.
  unfoldable pub split_loop : ℕ → List A → ℕ → ℕ → List (List A) → Option (List (List A))
  split_loop zero s p i sx = none
  split_loop (suc fuel) s p i sx = elim (leb i (length s)) [
    | true ↦ split_loop fuel s (p + 255) (i + 255) (sx ++ slice s p i ∷ [])
    | false ↦ some (sx ++ drop p s ∷ [])
  ]

  unfoldable pub split255 : List A → Option (List (List A))
  split255 s = if ltb (length s) 255 then some (s ∷ []) else split_loop (length s + 1) s 0 255 []
