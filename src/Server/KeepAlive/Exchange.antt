-- ===== src/Server/KeepAlive/Exchange.antt =====
-- One round of the sender's thread: it always comes to an end, and what it does to a dead socket.
use net_chat.Prelude.{
  Str, str_eq, Option-cases, inl, inr, ◌≢◌, ℤ, ℕ, suc, ◌≤◌, ◌≡◌, refl, sym, ◌∙◌, ap, [], ◌∷◌, ◌++◌,
  Option, none, some, codes, length, arith,
}
use mathlib.Core.List.{append_assoc}
use net_chat.Exec.{Exec, Result, ok, pure, ◌>>=◌, ◌>>◌}
use net_chat.Exec.Inversion.{bind_ok}
use net_chat.Proto.{Packet}
use net_chat.Van.{
  Network, Van, shut, SendResult, sent, send_failed, overread, Ended, done, failed, exhausted,
  received, recv_loop, van_send, van_recv, control, max_message_size,
}
use net_chat.Van.Send.{Delivers, delivered, partly, van_send-Delivers}
use net_chat.Van.Closing.{actions-control_close}
use net_chat.Server.KeepAlive.{exchange, after_try, after_ack}

module _ (net : Network) (fd : ℕ) where
  open net use {serialize}

  close-ok : (v : Van) → (z : ℤ) × (v' : Van) × (control net fd (codes "CLOSE_FD") v ≡ (ok z, v'))
  unfolding control str_eq
  close-ok v = (_, _, refl)

  received-ok :
      (r : Ended Str) (v : Van)
      → (o : Option (ℕ × Packet)) × (v' : Van) × (received net r v ≡ (ok o, v'))
  unfolding received
  received-ok (done buf call) v = elim (Option-cases (net.parse buf)) [
    | inl e ↦ (none, (received net (done buf call) v).1, ground arith)
    | inr (p, e) ↦ (some (length buf, p), (received net (done buf call) v).1, ground arith)
  ]
  received-ok (failed buf call) v = (none, _, refl)
  received-ok exhausted v = (none, v, refl)

  recv-ok : (v : Van) → (o : Option (ℕ × Packet)) × (v' : Van) × (van_recv net fd v ≡ (ok o, v'))
  unfolding van_recv
  recv-ok v = received-ok (recv_loop net (suc max_message_size) v.calls fd []) v

  actions-received : (r : Ended Str) (v : Van) → (received net r v).1.actions ≡ v.actions
  unfolding received
  actions-received (done buf call) v = elim (Option-cases (net.parse buf)) [
    | inl e ↦ ground arith
    | inr (p, e) ↦ ground arith
  ]
  actions-received (failed buf call) v = refl
  actions-received exhausted v = refl

  actions-van_recv : (v : Van) → (van_recv net fd v).1.actions ≡ v.actions
  unfolding van_recv
  actions-van_recv v = actions-received (recv_loop net (suc max_message_size) v.calls fd []) v

  closing-ok :
      (v : Van)
      → (v' : Van) × ((control net fd (codes "CLOSE_FD") >> pure {S = Van} {A = Unit {0}} tt) v
          ≡ (ok tt, v'))
  closing-ok v =
      let (z, v', e) = close-ok v in
      (v', bind_ok (control net fd (codes "CLOSE_FD")) (λ _. pure tt) v v' z e)

  after_ack-ok :
      (o : Option (ℕ × Packet)) (v : Van) → (v' : Van) × (after_ack net fd o v ≡ (ok tt, v'))
  unfolding after_ack
  after_ack-ok none v = closing-ok v
  after_ack-ok (some received) v = (v, refl)

  -- what follows the attempt to send
  rest-ok : (v : Van) → (v' : Van) × ((van_recv net fd >>= after_ack net fd) v ≡ (ok tt, v'))
  rest-ok v =
      let (o, v1, e) = recv-ok v in
      let (v2, f) = after_ack-ok o v1 in
      (v2, bind_ok (van_recv net fd) (after_ack net fd) v v1 o e ∙ f)

  tried-ok :
      (r : SendResult) (v : Van)
      → r ≢ overread
      → (v' : Van) × ((after_try net fd r >> (van_recv net fd >>= after_ack net fd)) v
          ≡ (ok tt, v'))
  unfolding after_try
  tried-ok (sent n) v h =
      let (v', e) = rest-ok v in
      (v', bind_ok (pure tt) (λ _. van_recv net fd >>= after_ack net fd) v v tt refl ∙ e)
  tried-ok send_failed v h =
      let (v1, e) = closing-ok v in
      let (v2, f) = rest-ok v1 in
      (
        v2,
        bind_ok (after_try net fd send_failed) (λ _. van_recv net fd >>= after_ack net fd) v v1 tt e
            ∙ f,
      )
  tried-ok overread v h = absurd (h refl)

  sends :
      {s : Str} {v : Van} {r : Result SendResult × Van}
      → Delivers net fd s v r
      → (x : SendResult) × (v' : Van) × (r ≡ (ok x, v')) × (x ≢ overread)
  sends {s} (delivered v' a) = (sent (length s), v', refl, λ e. cc e)
  sends (partly out left v' a b c) = (send_failed, v', refl, λ e. cc e)

  -- A round comes to an end, whatever the network does, if the packet fits the buffer.
  pub exchange-ok :
      (p : Packet) (v : Van)
      → length (serialize p) ≤ max_message_size
      → (v' : Van) × (exchange net p fd v ≡ (ok tt, v'))
  unfolding exchange
  exchange-ok p v fits =
      let (r, v1, e, h) = sends (van_send-Delivers net fd p v fits) in
      let (v2, f) = tried-ok r v1 h in
      (
        v2,
        bind_ok (van_send net p fd)
              (λ x. after_try net fd x >> (van_recv net fd >>= after_ack net fd)) v v1 r e
            ∙ f,
      )

  -- When the send of a round fails and no acknowledgement can be read afterwards, the round
  -- goes on all the same and closes the same socket number twice.
  pub exchange_dead :
      (p : Packet) (v v1 v2 v3 v4 : Van) (y z : ℤ)
      → van_send net p fd v ≡ (ok send_failed, v1)
      → control net fd (codes "CLOSE_FD") v1 ≡ (ok y, v2)
      → van_recv net fd v2 ≡ (ok none, v3)
      → control net fd (codes "CLOSE_FD") v3 ≡ (ok z, v4)
      → (exchange net p fd v ≡ (ok tt, v4)) × (v4.actions ≡ v1.actions ++ shut fd ∷ shut fd ∷ [])
  unfolding exchange after_try after_ack
  exchange_dead p v v1 v2 v3 v4 y z sending first receiving second =
      let close : Exec Van (Unit {0}) =
        control net fd (codes "CLOSE_FD") >> pure {S = Van} {A = Unit {0}} tt in
      let rest : Exec Van (Unit {0}) = van_recv net fd >>= after_ack net fd in
      (
        bind_ok (van_send net p fd) (λ x. after_try net fd x >> rest) v v1 send_failed sending
            ∙ bind_ok close (λ _. rest) v1 v2 tt
                (bind_ok (control net fd (codes "CLOSE_FD")) (λ _. pure tt) v1 v2 y first)
            ∙ bind_ok (van_recv net fd) (after_ack net fd) v2 v3 none receiving
            ∙ bind_ok (control net fd (codes "CLOSE_FD")) (λ _. pure tt) v3 v4 z second,
        ap (λ x. x.1.actions) (sym second)
            ∙ actions-control_close net fd v3
            ∙ ap (λ l. l ++ shut fd ∷ [])
                (ap (λ x. x.1.actions) (sym receiving)
                  ∙ actions-van_recv v2
                  ∙ ap (λ x. x.1.actions) (sym first)
                  ∙ actions-control_close net fd v1)
            ∙ append_assoc v1.actions (shut fd ∷ []) (shut fd ∷ []),
      )
