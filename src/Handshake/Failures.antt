-- ===== src/Handshake/Failures.antt =====
-- How a run of either side fails, and how far it came (handshake.go).
use zwing.Base.{
  ◌≡◌, ◌↔◌, sym, ap, ◌∙◌, Bytes, Option, none, some, Error, Outcome, ok, err, config_missing_id,
  bind_ok, bind_err, bind-eq_err, at_once, later, lift, fail, err_inj,
}
use zwing.Platform.{Platform}
use zwing.Config.{Config}
use zwing.Wire.{read_frame}
use zwing.Identity.{Identity, IdentityPublic}
use zwing.Messages.{HandshakeInit}
use zwing.Handshake.{
  HandshakeResult, send_init, accept_init, answer_init, await_response, initiate, respond,
  run_initiator, run_responder,
}
use zwing.Handshake.Refusals.{
  InitRefused, ResponseRefused, accept_init_err_iff, accept_response_err_iff,
}

missing :
    {W A : Type 0} (w w' : W) (e : Error)
    → (fail {A = A} config_missing_id w ≡ (err e, w')) ↔ ((e ≡ config_missing_id) × (w' ≡ w))
missing w w' e = (
  λ h. (err_inj (ap (λ q. q.0) (sym h)), ap (λ q. q.1) (sym h)),
  λ (is, still) i. (err (sym is i), sym still i),
)

module _ (P : Platform) (conn : P.RawConn) (cfg : Config P) where
  module _ (id : Identity P) where
    -- How the responder's run fails that has an identity: the frame does not arrive, or is refused
    -- and not answered, or the answer fails.
    pub data RespondFailed (w w' : P.World) (e : Error) : Type 0 where
      not_heard : read_frame P.host conn w ≡ (err e, w') → RespondFailed w w' e
      init_refused :
          (frame : Bytes)
          → read_frame P.host conn w ≡ (ok frame, w')
          → InitRefused P cfg frame e
          → RespondFailed w w' e
      not_answered :
          (frame : Bytes) (w1 : P.World) (init : HandshakeInit) (remote : IdentityPublic P)
          → read_frame P.host conn w ≡ (ok frame, w1)
          → accept_init P cfg frame ≡ ok (init, remote)
          → answer_init P conn id init remote w1 ≡ (err e, w')
          → RespondFailed w w' e

    -- How the initiator's run fails that has an identity: its message is not sent, or no frame
    -- arrives, or the frame is refused.
    pub data InitiateFailed (w w' : P.World) (e : Error) : Type 0 where
      not_sent : send_init P conn id w ≡ (err e, w') → InitiateFailed w w' e
      not_replied :
          (id_pub : Bytes) (w1 : P.World)
          → send_init P conn id w ≡ (ok id_pub, w1)
          → read_frame P.host conn w1 ≡ (err e, w')
          → InitiateFailed w w' e
      response_refused :
          (id_pub frame : Bytes) (w1 : P.World)
          → send_init P conn id w ≡ (ok id_pub, w1)
          → read_frame P.host conn w1 ≡ (ok frame, w')
          → ResponseRefused P cfg id id_pub frame e
          → InitiateFailed w w' e

    respond_err_iff :
        (w w' : P.World) (e : Error)
        → (respond P conn cfg (some id) w ≡ (err e, w')) ↔ RespondFailed w w' e
    unfolding respond
    respond_err_iff w w' e = (
      λ h. elim (bind-eq_err (read_frame P.host conn) _ w w' h) [
        | at_once e1 ↦ not_heard e1
        | later frame w1 e1 h1 ↦ elim (bind-eq_err (lift (accept_init P cfg frame)) _ w1 w' h1) [
          | at_once e2 ↦
              init_refused frame
                (e1
                  ∙ ap
                      (λ (q : Outcome (HandshakeInit × IdentityPublic P) × P.World).
                        (ok frame, q.1))
                      e2)
                ((accept_init_err_iff P cfg frame e).0 (ap (λ q. q.0) e2))
          | later (init, remote) w2 e2 h2 ↦
              not_answered frame w2 init remote
                (e1
                  ∙ ap
                      (λ (q : Outcome (HandshakeInit × IdentityPublic P) × P.World).
                        (ok frame, q.1))
                      e2)
                (ap (λ q. q.0) e2) h2
        ]
      ],
      λ r. elim r [
        | not_heard e1 ↦ bind_err _ _ w e1
        | init_refused frame e1 r1 ↦
            bind_ok _ _ w e1
            ∙ bind_err (lift (accept_init P cfg frame)) _ w'
                (ap (λ o. (o, w')) ((accept_init_err_iff P cfg frame e).1 r1))
        | not_answered frame w1 init remote e1 e2 e3 ↦
            bind_ok _ _ w e1
            ∙ bind_ok (lift (accept_init P cfg frame)) _ w1 (ap (λ o. (o, w1)) e2)
            ∙ e3
      ],
    )

    initiate_err_iff :
        (w w' : P.World) (e : Error)
        → (initiate P conn cfg (some id) w ≡ (err e, w')) ↔ InitiateFailed w w' e
    unfolding initiate await_response
    initiate_err_iff w w' e = (
      λ h. elim (bind-eq_err (send_init P conn id) (await_response P conn cfg id) w w' h) [
        | at_once e1 ↦ not_sent e1
        | later id_pub w1 e1 h1 ↦ elim (bind-eq_err (read_frame P.host conn) _ w1 w' h1) [
          | at_once e2 ↦ not_replied id_pub w1 e1 e2
          | later frame w2 e2 h2 ↦
              response_refused id_pub frame w1 e1
                (e2 ∙ ap (λ (q : Outcome (HandshakeResult P) × P.World). (ok frame, q.1)) h2)
                ((accept_response_err_iff P cfg id id_pub frame e).0 (ap (λ q. q.0) h2))
        ]
      ],
      λ r. elim r [
        | not_sent e1 ↦ bind_err _ _ w e1
        | not_replied id_pub w1 e1 e2 ↦ bind_ok _ _ w e1 ∙ bind_err _ _ w1 e2
        | response_refused id_pub frame w1 e1 e2 r1 ↦
            bind_ok _ _ w e1
            ∙ bind_ok _ _ w1 e2
            ∙ ap (λ o. (o, w')) ((accept_response_err_iff P cfg id id_pub frame e).1 r1)
      ],
    )

  -- A run without an identity fails at once.
  abbrev pub IsRunFailure :
      (Identity P → P.World → P.World → Error → Type 0)
      → Option (Identity P)
      → P.World
      → P.World
      → Error
      → Type 0
  IsRunFailure Failed none w w' e = (e ≡ config_missing_id) × (w' ≡ w)
  IsRunFailure Failed (some id) w w' e = Failed id w w' e

  respond-cases :
      (l : Option (Identity P)) (w w' : P.World) (e : Error)
      → (respond P conn cfg l w ≡ (err e, w')) ↔ IsRunFailure RespondFailed l w w' e
  unfolding respond
  respond-cases none w w' e = missing w w' e
  respond-cases (some id) w w' e = respond_err_iff id w w' e

  initiate-cases :
      (l : Option (Identity P)) (w w' : P.World) (e : Error)
      → (initiate P conn cfg l w ≡ (err e, w')) ↔ IsRunFailure InitiateFailed l w w' e
  unfolding initiate
  initiate-cases none w w' e = missing w w' e
  initiate-cases (some id) w w' e = initiate_err_iff id w w' e

  -- The responder's run, given a configuration, returns an error and a world exactly when: the
  -- identity is missing and nothing was touched; or no frame arrived, with that error; or the
  -- frame was refused with that error and not answered, for the first reason that holds: it does
  -- not parse, its identity does not parse, has not signed, or is not the pinned one; or the
  -- answer failed with that error.
  pub run_responder_err_iff :
      (w w' : P.World) (e : Error)
      → (run_responder P conn (some cfg) w ≡ (err e, w'))
        ↔ IsRunFailure RespondFailed cfg.local_identity w w' e
  unfolding run_responder
  run_responder_err_iff w w' e = respond-cases cfg.local_identity w w' e

  -- The initiator's run, given a configuration, returns an error and a world exactly when: the
  -- identity is missing and nothing was touched; or its message was not sent, with that error; or
  -- no frame arrived, with that error; or the frame was refused with that error, for the first
  -- reason that holds: it does not parse, does not decapsulate, does not open, does not split,
  -- its identity does not parse, has not signed, or is not the pinned one.
  pub run_initiator_err_iff :
      (w w' : P.World) (e : Error)
      → (run_initiator P conn (some cfg) w ≡ (err e, w'))
        ↔ IsRunFailure InitiateFailed cfg.local_identity w w' e
  unfolding run_initiator
  run_initiator_err_iff w w' e = initiate-cases cfg.local_identity w w' e
