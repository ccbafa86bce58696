-- ===== src/Sample/Lawful.antt =====
-- The sample platform keeps every law.
use zwing.Base.{ℕ, ◌≡◌, refl, ap, arith, true, false, [], ◌∷◌, length, ok, le→ltb, ok_inj, sym, ◌∙◌}
use zwing.Base.{
  drop, ◌++◌, subst, Bool, Bool-cases, inl, inr, length-take, bytes_eq, bytes_eq_refl, Bytes, ltb,
}
use zwing.Host.Link.{Link, IsExact}
use zwing.Platform.Laws.{KemLaws, EntropyLaws, EncodingLaws, SignatureLaws}
use zwing.Platform.Duplex.{Duplex}
use zwing.Handshake.Agreement.{AllLaws}
use zwing.Sample.Primitives.{
  untag-tagged, tagged-untag, length-tagged, length-multiply, multiply_base,
}
use zwing.Sample.Primitives.{multiply_agree, padded, length-padded, length-seal, unseal-seal}
use zwing.Sample.Machine.{State, start, machine, sample, send, receive}

entropy : EntropyLaws sample
entropy = record {
  entropy_length =
      λ r n w w' bs e. ap length (sym (ok_inj (ap (λ p. p.0) e))) ∙ length-padded n (7 ∷ []);
}

kem : KemLaws sample
kem = record {
  mlkem_public_length = λ pk. length-tagged 1184 pk (omega arith);
  mlkem_public_parse = untag-tagged 1184;
  mlkem_correct = λ sk r w w' ct secret e.
      let both = ok_inj (ap (λ p. p.0) e) in
      (
        ap length (sym (ap (λ p. p.0) both)) ∙ length-tagged 1088 sk (omega arith),
        ap ok (ap (λ p. p.1) both),
      );
  x25519_length = length-multiply;
  x25519_base = λ k h. multiply_base k;
  x25519_agree = λ a b u v ha hb. multiply_agree a b u v;
}

signatures : SignatureLaws sample
signatures = record {
  ed25519_public_length = λ pub_key priv_key (r, w, w', e).
      ap length (sym (ap (λ p. p.0) (ok_inj (ap (λ p. p.0) e)))) ∙ length-tagged 32 5 (omega arith);
  ed25519_correct =
      λ pub_key priv_key digest g. (length-padded 64 digest, bytes_eq_refl (padded 64 digest));
  mldsa_public_length = λ pk. length-tagged 1952 pk (omega arith);
  mldsa_public_parse = untag-tagged 1952;
  mldsa_correct = λ sk r digest ctx sig w w' e.
      let made = ok_inj (ap (λ p. p.0) e) in
      (
        ap length (sym made) ∙ length-padded 3309 _,
        let whole = padded 3309 (sk ∷ (ctx ++ digest)) in
            subst (λ s. bytes_eq s whole ≡ true) made (bytes_eq_refl whole),
      );
}

pub sample_laws : AllLaws sample
sample_laws = record {
  kem = kem;
  entropy = entropy;
  signatures = signatures;
  aead = record { seal_length = length-seal; open-seal = unseal-seal };
  supplied = record {
    entropy_ok = λ r n w. (_, w, refl);
    encapsulate_ok = λ pk r w. (_, w, refl);
    sign_ok = λ sk r digest ctx w. (_, w, refl);
  };
}

pub sample_encoding : EncodingLaws sample
sample_encoding = record {
  mlkem_public_bytes = tagged-untag 1184;
  mldsa_public_bytes = tagged-untag 1952;
}

-- The end `false` reads what `true` writes.
forward : Link machine true false
unfolding send receive
forward = record {
  pending = λ w. w.to_false;
  write = λ bs w. (record w { to_false = w.to_false ++ bs }, refl, refl);
  read = λ n w h.
      (record w { to_false = drop n w.to_false }, rw (le→ltb (length w.to_false) n h), refl);
}

backward : Link machine false true
unfolding send receive
backward = record {
  pending = λ w. w.to_true;
  write = λ bs w. (record w { to_true = w.to_true ++ bs }, refl, refl);
  read =
      λ n w h. (record w { to_true = drop n w.to_true }, rw (le→ltb (length w.to_true) n h), refl);
}

receive-to_true : (n : ℕ) (w : State) → (receive false n w).1.to_true ≡ w.to_true
unfolding receive
receive-to_true n w = elim (Bool-cases (ltb (length w.to_false) n)) [
  | inl short ↦ rw short
  | inr long ↦ rw long
]

receive-to_false : (n : ℕ) (w : State) → (receive true n w).1.to_false ≡ w.to_false
unfolding receive
receive-to_false n w = elim (Bool-cases (ltb (length w.to_true) n)) [
  | inl short ↦ rw short
  | inr long ↦ rw long
]

pub sample_duplex : Duplex sample true false
unfolding forward backward
sample_duplex = record {
  forward = forward;
  backward = backward;
  write_forward = λ bs. record { at = λ w. unfold send in refl };
  read_forward = λ n. record { at = λ w. receive-to_true n w };
  write_backward = λ bs. record { at = λ w. unfold send in refl };
  read_backward = λ n. record { at = λ w. receive-to_false n w };
  sign_forward = λ sk r digest ctx. record { at = λ w. refl };
  sign_backward = λ sk r digest ctx. record { at = λ w. refl };
  mlkem_forward = λ pk r. record { at = λ w. refl };
  entropy_forward = λ r n. record { at = λ w. refl };
  mlkem_backward = λ pk r. record { at = λ w. refl };
  entropy_backward = λ r n. record { at = λ w. refl };
}

receive-length :
    (c : Bool) (n : ℕ) (w w' : State) (bs : Bytes) → receive c n w ≡ (ok bs, w') → length bs ≡ n
unfolding receive
receive-length true n w w' bs e = ground (arith, length-take n w.to_true)
receive-length false n w w' bs e = ground (arith, length-take n w.to_false)

pub sample_exact : IsExact machine
sample_exact = record { read_length = receive-length }

pub start_empty :
    (sample_duplex.forward.pending start ≡ []) × (sample_duplex.backward.pending start ≡ [])
unfolding sample_duplex
start_empty = (refl, refl)

-- What is on its way when a run begins with some bytes already sent to either end.
pub pending-to_true :
    (bs : Bytes) → sample_duplex.backward.pending (record start { to_true = bs }) ≡ bs
unfolding sample_duplex
pending-to_true bs = refl

pub pending-to_false : (w : State) → sample_duplex.forward.pending w ≡ w.to_false
unfolding sample_duplex
pending-to_false w = refl

pub pending-backward : (w : State) → sample_duplex.backward.pending w ≡ w.to_true
unfolding sample_duplex
pending-backward w = refl
