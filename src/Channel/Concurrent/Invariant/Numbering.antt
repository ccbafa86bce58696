-- ===== src/Channel/Concurrent/Invariant/Numbering.antt =====
-- The numbers of the seals of Write (channel.go), when there is one seal more.
use zwing.Base.{
  ℕ, zero, suc, ◌⊎◌, inl, inr, ◌+◌, ◌≡◌, refl, sym, ap, ◌∙◌, some, List, [], ◌∷◌, ◌++◌, length,
  arith,
}
use zwing.Aead.{nonce_for}
use zwing.Channel.Integrity.{get_elem?}
use zwing.Channel.Concurrent.{Seal}
use zwing.Channel.Concurrent.Invariant.{AreNumbered}

-- An element of a list with one more at its end.
get_elem?_snoc :
    {A : Type 0} (xs : List A) (y x : A) (k : ℕ)
    → get_elem? (xs ++ (y ∷ [])) k ≡ some x
    → (get_elem? xs k ≡ some x) ⊎ ((k ≡ length xs) × (y ≡ x))
unfolding get_elem?
get_elem?_snoc [] y x zero e = inr (refl, cc)
get_elem?_snoc [] y x (suc k) e = cc
get_elem?_snoc (z ∷ xs) y x zero e = inl e
get_elem?_snoc (z ∷ xs) y x (suc k) e = elim (get_elem?_snoc xs y x k e) [
  | inl found ↦ inl found
  | inr (at_end, same) ↦ inr (ap suc at_end, same)
]

pub AreNumbered-snoc :
    (first seq : ℕ) (seals : List Seal) (x : Seal)
    → AreNumbered first seals
    → first + length seals ≡ seq
    → x.nonce ≡ nonce_for seq
    → AreNumbered first (seals ++ (x ∷ []))
AreNumbered-snoc first seq seals x numbered next e k y found =
    elim (get_elem?_snoc seals x y k found) [
      | inl earlier ↦ numbered k y earlier
      | inr (at_end, same) ↦
          let number : seq ≡ first + k = omega arith in
          ap (λ s. s.nonce) (sym same) ∙ e ∙ ap nonce_for number
    ]
