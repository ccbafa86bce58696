-- ===== src/Kem/Combiner.antt =====
-- The bytes that combineXWing hashes (kem.go).
use zwing.Base.{◌≡◌, refl, ◌∙◌, sym, Bytes, length, append_inj}
use zwing.Kem.{combiner_input, xwing_label_prefix, xwing_label_name}

-- One set of inputs to the combiner, each of its fixed length.
pub record Inputs : Type 0 where
  pub ss_m : Bytes
  pub ss_x : Bytes
  pub ct_x : Bytes
  pub pk_x : Bytes

abbrev pub IsFixed : Inputs → Type 0
IsFixed i =
    (length i.ss_m ≡ 32) × (length i.ss_x ≡ 32) × (length i.ct_x ≡ 32) × (length i.pk_x ≡ 32)

abbrev pub input_of : Inputs → Bytes
input_of i = combiner_input i.ss_m i.ss_x i.ct_x i.pk_x

-- Inputs to the combiner, of 32 bytes each, that hash the same bytes are the same inputs.
pub combiner_input_inj : (i j : Inputs) → IsFixed i → IsFixed j → input_of i ≡ input_of j → i ≡ j
combiner_input_inj i j (hm, hx, hc, hp) (gm, gx, gc, gp) e =
    let (_, e1) = append_inj xwing_label_prefix xwing_label_prefix _ _ refl e in
    let (_, e2) = append_inj xwing_label_name xwing_label_name _ _ refl e1 in
    let (m, e3) = append_inj i.ss_m j.ss_m _ _ (hm ∙ sym gm) e2 in
    let (x, e4) = append_inj i.ss_x j.ss_x _ _ (hx ∙ sym gx) e3 in
    let (c, p) = append_inj i.ct_x j.ct_x _ _ (hc ∙ sym gc) e4 in
    λ k. record { ss_m = m k; ss_x = x k; ct_x = c k; pk_x = p k }
