-- ===== src/Sample/Servers.antt =====
-- The theorems on the test server, at sample runs of it.
use zwing.Base.{◌≡◌, refl, sym, ap, ◌∙◌, true, false, none, some, [], ok, bind_ok, length, ◌>>=◌}
use zwing.Config.{Config}
use zwing.Wire.{read_frame}
use zwing.Identity.{generate_identity}
use zwing.Identity.Codec.{generate_identity_from-IsSound, IsSound}
use zwing.Handshake.Agreement.{Agreed, handshake-Agreed}
use zwing.Channel.{Conn, read, close}
use zwing.Channel.Keys.{end_of}
use zwing.Endpoint.{Listener, kept, listen, accept, close_listener, is_unconfigured}
use zwing.Endpoint.Opening.{server_ok}
use zwing.TestServer.{Console, at_return, reply, echo, serve_one, server_config, test_server}
use zwing.TestServer.Serving.{Served, test_server-Served}
use zwing.Sample.Machine.{State, start, sample, receive}
use zwing.Sample.Lawful.{sample_laws, sample_duplex, start_empty, pending-to_false}
use zwing.Sample.Keys.{generated, generate_ok}
use zwing.Sample.Handshakes.{alice, alice-IsSound}

-- A console that nobody reads.
abbrev console : Console sample
console = record { eof = 0; println_addr = λ addr w. w; println_hex = λ bs w. w; sync = λ w. w }

abbrev for_server : Config sample
for_server = record { local_identity = some alice; expected_remote = none; handshake_timeout = 0 }

generated-IsSound : IsSound sample generated
unfolding generate_identity
generated-IsSound =
    generate_identity_from-IsSound sample sample_laws.kem sample_laws.entropy sample.rand_reader
      start start generated (generate_ok start)

abbrev met :
    Agreed sample true false sample_duplex for_server
      (server_config sample generated)
      alice
      generated
      start
met =
    handshake-Agreed sample sample_laws true false sample_duplex for_server
      (server_config sample generated) alice generated start alice-IsSound generated-IsSound refl
      refl refl start_empty.0 start_empty.1

abbrev listener : Listener sample
listener = record { raw = tt; cfg = some (server_config sample generated) }

abbrev conn : Conn sample
conn = end_of sample false met.res_b met.res_b.key_i2r met.res_b.key_r2i

accepts : accept sample listener met.w1 ≡ (ok conn, met.w2)
unfolding accept
accepts =
    bind_ok _ _ met.w1 refl
    ∙ server_ok sample false (server_config sample generated) met.res_b met.w1 met.w2 refl
        met.responded (ap length (sym met.key_i2r) ∙ met.key_sizes.0)
        (ap length (sym met.key_r2i) ∙ met.key_sizes.1)

-- The peer hung up after the handshake.
echoes_nothing :
    (c : Conn sample) (w : State)
    → c.raw ≡ some false
    → c.read_buf ≡ []
    → w.to_false ≡ []
    → echo sample 0 c w ≡ (ok tt, c, w)
unfolding echo read reply read_frame receive ◌>>=◌
echoes_nothing c w raw kept empty = rw (kept, raw, empty)

abbrev left : State
left = record met.w2 { closed = true }

serves : serve_one sample console listener met.w1 ≡ (ok tt, left)
unfolding serve_one at_return close kept
serves =
    bind_ok _ _ met.w1 accepts
    ∙ ap (λ r. at_return sample r.0 r.2 (close sample conn))
        (echoes_nothing conn met.w2 refl refl (sym (pending-to_false met.w2) ∙ met.consumed))

listens :
    (w : State) → listen sample [] (some (server_config sample generated)) w ≡ (ok listener, w)
unfolding listen is_unconfigured ◌>>=◌
listens w = refl

runs : test_server sample console [] met.w1 ≡ (ok tt, left)
unfolding test_server close_listener at_return kept
runs =
    bind_ok _ _ met.w1 (generate_ok met.w1)
    ∙ bind_ok (listen sample [] (some (server_config sample generated))) _ met.w1 (listens met.w1)
    ∙ ap (λ r. at_return sample r.0 r.1 (close_listener sample listener)) serves

test_server-Served_example : Served sample console [] met.w1 left
test_server-Served_example = test_server-Served sample console [] met.w1 left runs
