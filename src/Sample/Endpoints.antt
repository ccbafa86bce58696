-- ===== src/Sample/Endpoints.antt =====
-- The theorems on the entry points, over the run of Sample/Runs.
use zwing.Base.{
  ◌≡◌, refl, true, false, Option, none, some, [], ok, panic, ap, sym, ◌∙◌, length, nil_dereference,
}
use zwing.Base.{Bytes, Outcome, ◌∷◌, ◌++◌, take, zeros, append-nil, ok_inj, arith, inr}
use zwing.Wire.Frames.{IsPayload, frame, read_frame_lem}
use zwing.Aead.{nonce_for}
use zwing.Channel.{ReadReturn, read, read_raw}
use zwing.Channel.Exchange.{handed}
use zwing.Channel.Integrity.{IsUnforged, AreUnforged, get_elem?, here, reads}
use zwing.Channel.Stream.{concat}
use zwing.Endpoint.Session.{IsAuthenticated, opened-Reads_front}
use zwing.Sample.Primitives.{seal, length-seal, unseal, unseal-seal}
use zwing.Sample.Machine.{State, machine}
use zwing.Sample.Lawful.{sample_duplex, pending-to_false}
use zwing.Sample.Channels.{three}
use zwing.Endpoint.{client, server}
use zwing.Config.{Config}
use zwing.Endpoint.Entry.{ClientOpened, client-ClientOpened}
use zwing.Endpoint.Entry.{ServerOpened, server-ServerOpened}
use zwing.Endpoint.Refusals.{Refused, unconfigured-Refused}
use zwing.Endpoint.Opening.{client_ok, server_ok}
use zwing.Channel.{Conn}
use zwing.Channel.Keys.{end_of}
use zwing.Sample.Machine.{start, sample}
use zwing.Sample.Runs.{for_bob, for_alice, agreed, ready, resumed}

abbrev conn_a : Conn sample
conn_a = end_of sample true agreed.res_a agreed.res_a.key_r2i agreed.res_a.key_i2r

abbrev conn_b : Conn sample
conn_b = end_of sample false agreed.res_b agreed.res_b.key_i2r agreed.res_b.key_r2i

opened_a : client sample true (some for_bob) ready ≡ (ok conn_a, resumed.0)
opened_a =
    client_ok sample true for_bob agreed.res_a ready resumed.0 refl resumed.1 agreed.key_sizes.0
      agreed.key_sizes.1

opened_b : server sample false (some for_alice) agreed.w1 ≡ (ok conn_b, agreed.w2)
opened_b =
    server_ok sample false for_alice agreed.res_b agreed.w1 agreed.w2 refl agreed.responded
      (ap length (sym agreed.key_i2r) ∙ agreed.key_sizes.0)
      (ap length (sym agreed.key_r2i) ∙ agreed.key_sizes.1)

client-ClientOpened_example : ClientOpened sample for_bob true conn_a
client-ClientOpened_example =
    client-ClientOpened sample true for_bob ready resumed.0 conn_a opened_a

server-ServerOpened_example : ServerOpened sample for_alice false conn_b
server-ServerOpened_example =
    server-ServerOpened sample false for_alice agreed.w1 agreed.w2 conn_b opened_b

-- The first record of the peer, on its way to the responder.
abbrev first_record : Bytes
first_record = seal conn_b.read_aead (nonce_for 0) three []

abbrev sent_one : State
sent_one = record start { to_false = frame first_record }

first_record-IsPayload : IsPayload first_record
first_record-IsPayload =
    let size = length-seal conn_b.read_aead (nonce_for 0) three [] in (omega arith, omega arith)

arrives : (w' : State) × (read_raw sample conn_b.raw sent_one ≡ (ok first_record, w'))
arrives =
    let (w', e, p) =
      read_frame_lem machine true false sample_duplex.forward first_record [] sent_one
        first_record-IsPayload
        (pending-to_false sent_one ∙ sym (append-nil (frame first_record))) in
    (w', e)

genuine : IsUnforged sample (three ∷ []) conn_b sent_one
unfolding get_elem?
genuine taken text empty e below opens =
    let same : first_record ≡ taken = ok_inj (ap (λ p. p.0) (sym arrives.1) ∙ e) in
    sym (unseal-seal conn_b.read_aead (nonce_for 0) three [])
    ∙ ap (λ t. unseal conn_b.read_aead (nonce_for 0) t []) same
    ∙ opens

abbrev one_read : Outcome (ReadReturn sample) × Conn sample × State
one_read = read sample conn_b (zeros 2) sent_one

session_reads :
    IsAuthenticated sample for_alice false conn_b
    × (([] ++ handed sample one_read.0) ++ one_read.1.read_buf
        ≡ concat (take one_read.1.read_seq (three ∷ [])))
unfolding AreUnforged
session_reads =
    opened-Reads_front sample for_alice false agreed.w1 agreed.w2 conn_b one_read.1 (three ∷ [])
      ([] ++ handed sample one_read.0) (reads here (zeros 2) sent_one) (inr opened_b) (tt, genuine)

-- A configuration with a pin and no identity.
abbrev unnamed : Option (Config sample)
unnamed = some (record for_alice { local_identity = none })

no_identity : (c : Config sample) → unnamed ≡ some c → c.local_identity ≡ none
no_identity c e = cc

unconfigured-Refused_example :
    Refused sample (λ c. c.write_seq) (λ l. l.cfg) [] unnamed start
    × (client sample true none start ≡ (panic nil_dereference, start))
    × (server sample true none start ≡ (panic nil_dereference, start))
unconfigured-Refused_example =
    unconfigured-Refused sample (λ c. c.write_seq) (λ l. l.cfg) [] unnamed true start no_identity
