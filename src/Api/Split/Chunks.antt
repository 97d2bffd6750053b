-- ===== src/Api/Split/Chunks.antt =====
-- `split255` ends, and what its chunks are.
use mathlib.Core.List.{append-nil, append_assoc}
use ksdns.Prelude.{
  ℕ, zero, suc, ◌+◌, ◌-◌, ◌/◌, ◌≤◌, ◌<◌, ◌≡◌, refl, sym, subst, ap, ◌∙◌, some, List, [], ◌∷◌, ◌++◌,
  arith, length, concat, All, ltb, leb, ltb→lt, Bool-cases, inl, inr,
}
use ksdns.Api.Split.{take, drop, slice, split_loop, split255}

module _ {ℓ} {A : Type ℓ} where
  take-append-drop : (n : ℕ) (xs : List A) → take n xs ++ drop n xs ≡ xs
  take-append-drop zero xs = refl
  take-append-drop (suc n) [] = refl
  take-append-drop (suc n) (x ∷ xs) = ap (λ l. x ∷ l) (take-append-drop n xs)

  drop-nil : (n : ℕ) → drop {A = A} n [] ≡ []
  drop-nil zero = refl
  drop-nil (suc n) = refl

  drop-drop : (n p : ℕ) (xs : List A) → drop n (drop p xs) ≡ drop (p + n) xs
  drop-drop n zero xs = let e : 0 + n ≡ n = omega arith in rw e
  drop-drop n (suc p) [] = drop-nil n ∙ sym (drop-nil (suc p + n))
  drop-drop n (suc p) (x ∷ xs) =
      let e : suc p + n ≡ suc (p + n) = omega arith in rw e (drop-drop n p xs)

  length-take : (n : ℕ) (xs : List A) → n ≤ length xs → length (take n xs) ≡ n
  length-take zero xs h = refl
  length-take (suc n) [] h = absurd (omega arith)
  length-take (suc n) (x ∷ xs) h = ap suc (length-take n xs (omega arith))

  length-drop : (n : ℕ) (xs : List A) → length (drop n xs) ≡ length xs - n
  length-drop zero xs = omega arith
  length-drop (suc n) [] = omega arith
  length-drop (suc n) (x ∷ xs) = omega (arith, length-drop n xs)

  -- Of the chunks from position `p` on: they make up the rest of the text, each has at most 255
  -- bytes, and there is one more than the number of times that 255 goes into the rest.
  pub record AreChunks (rest : List A) (chunks : List (List A)) : Type ℓ where
    pub whole : concat chunks ≡ rest
    pub short : All (λ chunk. length chunk ≤ 255) chunks
    pub number : length chunks ≡ length rest / 255 + 1

  AreChunks-last : (s : List A) → length s < 255 → AreChunks s (s ∷ [])
  AreChunks-last s h = record { whole = append-nil s; short = omega arith; number = omega arith }

  AreChunks-cons :
      (s : List A) (chunks : List (List A))
      → 255 ≤ length s
      → AreChunks (drop 255 s) chunks
      → AreChunks s (take 255 s ∷ chunks)
  AreChunks-cons s chunks h r = record {
    whole = ap (λ l. take 255 s ++ l) r.whole ∙ take-append-drop 255 s;
    short = (omega (arith, length-take 255 s), r.short);
    number = omega (arith, r.number, length-drop 255 s);
  }

  split_loop_total :
      (fuel : ℕ) (s : List A) (p : ℕ) (sx : List (List A))
      → length s - p < fuel
      → (chunks : List (List A)) × (split_loop fuel s p (p + 255) sx ≡ some (sx ++ chunks))
        × AreChunks (drop p s) chunks
  unfolding split_loop
  split_loop_total zero s p sx h = absurd (omega arith)
  split_loop_total (suc fuel) s p sx h = elim (Bool-cases (leb (p + 255) (length s))) [
    | inl more ↦
        let (chunks, e, r) =
          split_loop_total fuel s (p + 255) (sx ++ slice s p (p + 255) ∷ []) (ground arith) in
        let width : p + 255 - p ≡ 255 = omega arith in
        (
          take 255 (drop p s) ∷ chunks,
          rw (more, split_loop)
              (e
                ∙ ap some
                    (append_assoc sx _ chunks ∙ ap (λ w. sx ++ take w (drop p s) ∷ chunks) width)),
          AreChunks-cons (drop p s) chunks (ground (arith, length-drop p s))
              (subst (λ l. AreChunks l chunks) (sym (drop-drop 255 p s)) r),
        )
    | inr done ↦ (
      drop p s ∷ [],
      rw (done, split_loop) refl,
      AreChunks-last (drop p s) (ground (arith, length-drop p s)),
    )
  ]

  -- The loop ends, and the chunks make up the text in order, each of at most 255 bytes; there is
  -- one more of them than the number of times that 255 goes into the text's length, so a text of
  -- 255 bytes, or of a multiple, has an empty last chunk.
  pub split255_total :
      (s : List A) → (chunks : List (List A)) × (split255 s ≡ some chunks) × AreChunks s chunks
  unfolding split255
  split255_total s = elim (Bool-cases (ltb (length s) 255)) [
    | inl short ↦ (s ∷ [], rw short refl, AreChunks-last s (ltb→lt _ _ short))
    | inr long ↦
        let (chunks, e, r) = split_loop_total (length s + 1) s 0 [] (omega arith) in
        (chunks, rw long e, r)
  ]
