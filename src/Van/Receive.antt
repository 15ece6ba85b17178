-- ===== src/Van/Receive.antt =====
-- The receiving loop ends, and what it returns fits the buffer.
use net_chat.Prelude.{
  ℕ, zero, suc, ◌+◌, ◌-◌, ◌<◌, ◌≤◌, ◌≡◌, refl, ◌⊎◌, inl, inr, true, false, [], ◌++◌, Str, length,
  length-append, leb, arith, Bool-cases,
}
use net_chat.Van.{
  Network, Received, bytes, again, error, closed, Ended, done, failed, recv_loop, max_message_size,
}

leb→le : (a b : ℕ) → leb a b ≡ true → a ≤ b
leb→le a b h = ground arith

not_leb→lt : (a b : ℕ) → leb a b ≡ false → b < a
not_leb→lt a b h = ground arith

max_message_size_pos : 0 < max_message_size
unfolding max_message_size
max_message_size_pos = omega arith

module _ (net : Network) (fuel call fd : ℕ) (buf : Str) where
  open net use {recv}

  recv_loop_again :
      recv call fd (max_message_size - length buf) ≡ again
      → recv_loop net (suc fuel) call fd buf ≡ done buf (suc call)
  unfolding recv_loop
  recv_loop_again e = ground arith

  recv_loop_closed :
      recv call fd (max_message_size - length buf) ≡ closed
      → recv_loop net (suc fuel) call fd buf ≡ done buf (suc call)
  unfolding recv_loop
  recv_loop_closed e = ground arith

  recv_loop_error :
      recv call fd (max_message_size - length buf) ≡ error
      → recv_loop net (suc fuel) call fd buf ≡ failed buf (suc call)
  unfolding recv_loop
  recv_loop_error e = ground arith

  recv_loop_full :
      (b : Str)
      → recv call fd (max_message_size - length buf) ≡ bytes b
      → leb max_message_size (length (buf ++ b)) ≡ true
      → recv_loop net (suc fuel) call fd buf ≡ failed (buf ++ b) (suc call)
  unfolding recv_loop
  recv_loop_full b e full = ground arith

  recv_loop_piece :
      (b : Str)
      → recv call fd (max_message_size - length buf) ≡ bytes b
      → leb max_message_size (length (buf ++ b)) ≡ false
      → recv_loop net (suc fuel) call fd buf ≡ recv_loop net fuel (suc call) fd (buf ++ b)
  unfolding recv_loop
  recv_loop_piece b e fits = ground arith

-- The pieces that `recv` gave, from one call up to another, and the buffer that they make.
pub data Gathers (net : Network) (fd : ℕ) : ℕ → Str → ℕ → Str → Type 0 where
  stop : (call : ℕ) (buf : Str) → Gathers net fd call buf call buf
  piece :
      {call call' : ℕ} {buf buf' : Str} (b : Str)
      → net.recv call fd (max_message_size - length buf) ≡ bytes b
      → Gathers net fd (suc call) (buf ++ b) call' buf'
      → Gathers net fd call buf call' buf'

-- How the loop ends from a call and a buffer: with all that came before the stream ended, if that is
-- less than the buffer holds; at an error; or at the piece that fills the buffer.
pub data Receives (net : Network) (fd call : ℕ) (buf : Str) : Ended Str → Type 0 where
  whole :
      {last : ℕ} {buf' : Str}
      → Gathers net fd call buf last buf'
      → (net.recv last fd (max_message_size - length buf') ≡ again)
        ⊎ (net.recv last fd (max_message_size - length buf') ≡ closed)
      → length buf' < max_message_size
      → Receives net fd call buf (done buf' (suc last))
  broken :
      {last : ℕ} {buf' : Str}
      → Gathers net fd call buf last buf'
      → net.recv last fd (max_message_size - length buf') ≡ error
      → Receives net fd call buf (failed buf' (suc last))
  large :
      {last : ℕ} {buf' : Str} (b : Str)
      → Gathers net fd call buf last buf'
      → net.recv last fd (max_message_size - length buf') ≡ bytes b
      → max_message_size ≤ length (buf' ++ b)
      → Receives net fd call buf (failed (buf' ++ b) (suc last))

module _ (net : Network) (fd : ℕ) where
  open net use {recv, recv_room}

  Receives-piece :
      {call : ℕ} {buf : Str} {r : Ended Str} (b : Str)
      → recv call fd (max_message_size - length buf) ≡ bytes b
      → Receives net fd (suc call) (buf ++ b) r
      → Receives net fd call buf r
  Receives-piece b e (whole g x l) = whole (piece b e g) x l
  Receives-piece b e (broken g x) = broken (piece b e g) x
  Receives-piece b e (large c g x l) = large c (piece b e g) x l

  -- Each round adds a byte at least, so as many rounds as there is room are enough.
  recv_loop-Receives :
      (fuel call : ℕ) (buf : Str)
      → max_message_size < length buf + fuel
      → length buf < max_message_size
      → Receives net fd call buf (recv_loop net fuel call fd buf)
  recv_loop-Receives zero call buf f l = absurd (omega arith)
  recv_loop-Receives (suc fuel) call buf f l =
      go (recv call fd (max_message_size - length buf)) refl
        (λ b. recv_loop-Receives fuel (suc call) (buf ++ b))
    where
      go :
          (o : Received)
          → recv call fd (max_message_size - length buf) ≡ o
          → ((b : Str)
              → max_message_size < length (buf ++ b) + fuel
              → length (buf ++ b) < max_message_size
              → Receives net fd (suc call) (buf ++ b) (recv_loop net fuel (suc call) fd (buf ++ b)))
          → Receives net fd call buf (recv_loop net (suc fuel) call fd buf)
      go again e ih = rw (recv_loop_again net fuel call fd buf e) (whole (stop call buf) (inl e) l)
      go closed e ih =
          rw (recv_loop_closed net fuel call fd buf e) (whole (stop call buf) (inr e) l)
      go error e ih = rw (recv_loop_error net fuel call fd buf e) (broken (stop call buf) e)
      go (bytes b) e ih = elim (Bool-cases (leb max_message_size (length (buf ++ b)))) [
        | inl full ↦
            rw (recv_loop_full net fuel call fd buf b e full)
              (large b (stop call buf) e (leb→le _ _ full))
        | inr fits ↦ rw (recv_loop_piece net fuel call fd buf b e fits) (
            Receives-piece b e (
              ih b (omega (arith, recv_room call fd _ b e, length-append {0} buf b))
                (not_leb→lt _ _ fits)))
      ]

  -- From an empty buffer the loop of RecvMesg always ends, and never because the model's fuel
  -- is spent: with all the pieces that came before the stream ended, when they are less than
  -- the buffer; at the first error; or at the piece that fills the buffer.
  pub recv_loop-Receives_all :
      (call : ℕ) → Receives net fd call [] (recv_loop net (suc max_message_size) call fd [])
  recv_loop-Receives_all call =
      recv_loop-Receives (suc max_message_size) call [] (omega arith) max_message_size_pos
