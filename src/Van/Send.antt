-- ===== src/Van/Send.antt =====
-- The sending loop ends, and what goes out is the packet, or a beginning of it.
use mathlib.Core.List.{append-nil, append_assoc}
use net_chat.Prelude.{
  ℕ, zero, suc, ◌<◌, ◌≤◌, ◌≡◌, refl, ◌∙◌, ap, subst, false, [], ◌∷◌, ◌++◌, Str, length, take, drop,
  take-append-drop, length-drop, ltb, arith,
}
use native.Mathlib.Nat.{le_refl}
use net_chat.Exec.{Result, ok}
use net_chat.Proto.{Packet}
use net_chat.Van.{
  Network, Van, Sent, took, refused, Ended, done, failed, SendResult, sent, send_failed, send_loop,
  van_send, max_message_size, wrote, transmitted,
}

le→not_ltb : (a b : ℕ) → a ≤ b → ltb b a ≡ false
le→not_ltb a b h = ground arith

-- How sending a text ends: all of it went out, or a proper beginning.
pub data Sends (s : Str) : Ended Str → Type 0 where
  all_out : (call : ℕ) → Sends s (done s call)
  cut_off :
      (out left : Str) (call : ℕ) → out ++ left ≡ s → 0 < length left → Sends s (failed out call)

module _ (net : Network) (fd : ℕ) where
  open net use {send, send_room, serialize}

  send_loop-refused :
      (fuel call : ℕ) (out : Str) (b : ℕ) (bs : Str)
      → send call fd (b ∷ bs) ≡ refused
      → send_loop net (suc fuel) call fd out (b ∷ bs) ≡ failed out (suc call)
  unfolding send_loop
  send_loop-refused fuel call out b bs e = ground arith

  send_loop-took :
      (fuel call k : ℕ) (out : Str) (b : ℕ) (bs : Str)
      → send call fd (b ∷ bs) ≡ took k
      → send_loop net (suc fuel) call fd out (b ∷ bs)
        ≡ send_loop net fuel (suc call) fd (out ++ take k (b ∷ bs)) (drop k (b ∷ bs))
  unfolding send_loop
  send_loop-took fuel call k out b bs e = ground arith

  -- Each call takes a byte at least, so as many calls as there are bytes are enough.
  send_loop-Sends :
      (fuel call : ℕ) (out rest : Str)
      → length rest ≤ fuel
      → Sends (out ++ rest) (send_loop net fuel call fd out rest)
  send_loop-Sends fuel call out [] h = rw append-nil (unfold send_loop in all_out call)
  send_loop-Sends zero call out (b ∷ bs) h = absurd (omega arith)
  send_loop-Sends (suc fuel) call out (b ∷ bs) h =
      go (send call fd (b ∷ bs)) refl
        (λ k. send_loop-Sends fuel (suc call) (out ++ take k (b ∷ bs)) (drop k (b ∷ bs)))
    where
      go :
          (o : Sent)
          → send call fd (b ∷ bs) ≡ o
          → ((k : ℕ)
              → length (drop k (b ∷ bs)) ≤ fuel
              → Sends
                  ((out ++ take k (b ∷ bs)) ++ drop k (b ∷ bs))
                  (send_loop net fuel (suc call) fd (out ++ take k (b ∷ bs)) (drop k (b ∷ bs))))
          → Sends (out ++ b ∷ bs) (send_loop net (suc fuel) call fd out (b ∷ bs))
      go refused e ih =
          rw (send_loop-refused fuel call out b bs e)
            (cut_off out (b ∷ bs) (suc call) refl (omega arith))
      go (took k) e ih =
          let whole : (out ++ take k (b ∷ bs)) ++ drop k (b ∷ bs) ≡ out ++ b ∷ bs =
            append_assoc out (take k (b ∷ bs)) (drop k (b ∷ bs))
            ∙ ap (◌++◌ out) (take-append-drop k (b ∷ bs)) in
          rw (send_loop-took fuel call k out b bs e) (
            subst
              (λ s.
                Sends s
                  (send_loop net fuel (suc call) fd (out ++ take k (b ∷ bs)) (drop k (b ∷ bs))))
              whole
              (ih k (
                omega (
                  arith,
                  length-drop {0} k (b ∷ bs),
                  (send_room call fd (b ∷ bs) k (omega arith) e).0,
                ))))

  -- What `Send` reports, and what the peer is sent.
  pub data Delivers (s : Str) (v : Van) : Result SendResult × Van → Type 0 where
    delivered :
        (v' : Van)
        → v'.actions ≡ v.actions ++ wrote fd s ∷ []
        → Delivers s v (ok (sent (length s)), v')
    partly :
        (out left : Str) (v' : Van)
        → out ++ left ≡ s
        → 0 < length left
        → v'.actions ≡ v.actions ++ wrote fd out ∷ []
        → Delivers s v (ok send_failed, v')

  transmitted-Delivers :
      (s : Str) (v : Van) (r : Ended Str) → Sends s r → Delivers s v (transmitted net fd r v)
  unfolding transmitted
  transmitted-Delivers s v r (all_out call) = delivered _ refl
  transmitted-Delivers s v r (cut_off out left call e l) = partly out left _ e l refl

  -- A packet that fits the buffer is sent whole, in order, with its length returned, or the
  -- call fails after a proper beginning of it; the model's fuel is always enough.
  pub van_send-Delivers :
      (p : Packet) (v : Van)
      → length (serialize p) ≤ max_message_size
      → Delivers (serialize p) v (van_send net p fd v)
  unfolding van_send
  van_send-Delivers p v fits = rw (le→not_ltb (length (serialize p)) max_message_size fits) (
      transmitted-Delivers (serialize p) v _
        (send_loop-Sends (length (serialize p)) v.calls [] (serialize p) (le_refl _)))
