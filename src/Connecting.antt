-- ===== src/Connecting.antt =====
-- StaticLib1/Terminal.cpp:33-93: the thread that connects a terminal to its server and hands over what it
-- receives. What the socket calls answer comes from outside.
use graduation_server.Common.{
  ℕ, zero, suc, ◌+◌, ◌≤◌, ◌≡◌, refl, ap, ◌∙◌, Bool, true, false, Option, none, some, List, [], ◌∷◌,
  ◌++◌, arith, ltb, if◌then◌else◌,
}
use graduation_server.Packet.{Packet}

-- Where the thread is: in the first loop with its `tryCount`, in the second loop, or at its end.
pub data Phase : Type 0 where
  connecting : ℕ → Phase
  receiving : Phase
  finished : Phase

-- `status_ == TERMINAL_READY`, `_shutdown`, the number of I_NOTIFY_TERMINAL that were sent, and the packets
-- of the packages handed to the server.
pub record Connection : Type 0 where
  pub phase : Phase
  pub ready : Bool
  pub shutdown : Bool
  pub notified : ℕ
  pub handed : List Packet

-- Behind the first loop.
abbrev pub make_ready : Phase → Connection → Connection
make_ready next c = record c { phase = next; ready = true; notified = c.notified + 1 }

-- A failed attempt.
abbrev pub retry : ℕ → Connection → Connection
retry try_count c =
    if ltb 100 try_count
    then record c { phase = finished; shutdown = true }
    else record c { phase = connecting (try_count + 1) }

-- What `onRecv` gave: the null pointer is a lost connection, whose session is in no list, so that closing
-- it does nothing.
abbrev pub hand_over : Option Packet → Connection → Connection
hand_over none c = record c { phase = connecting 0 }
hand_over (some packet) c = record c { handed = c.handed ++ (packet ∷ []) }

-- One pass of the loop that the thread is in, by what `connectTo` and `onRecv` answer if they are called.
unfoldable pub connect_step : Bool → Option Packet → Connection → Connection
connect_step connected packet c = elim c.phase [
  | connecting try_count ↦
      if c.shutdown
      then make_ready finished c
      else if connected
      then make_ready receiving c
      else retry try_count c
  | receiving ↦ if c.shutdown then record c { phase = finished } else hand_over packet c
  | finished ↦ c
]

-- So many passes in which no attempt succeeds.
unfoldable pub fail_times : ℕ → Connection → Connection
unfolding connect_step
fail_times zero c = c
fail_times (suc n) c = fail_times n (connect_step false none c)

-- A connection in its first loop.
abbrev pub trying : ℕ → Connection → Connection
trying n c = record c { phase = connecting n; shutdown = false }

fail_once :
    (m : ℕ) (c : Connection) → m ≤ 100 → connect_step false none (trying m c) ≡ trying (m + 1) c
unfolding connect_step
fail_once m c l = let more : ltb 100 m ≡ false = ground arith in rw (connect_step, more) refl

same_trying : (m n : ℕ) (c : Connection) → m ≡ n → trying m c ≡ trying n c
same_trying m n c e = ap (λ (k : ℕ). trying k c) e

failed : (n m : ℕ) (c : Connection) → n + m ≤ 101 → fail_times n (trying m c) ≡ trying (n + m) c
unfolding fail_times
failed zero m c l = same_trying (m) (0 + m) c (omega arith)
failed (suc n) m c l =
    ap (fail_times n) (fail_once m c (omega arith))
    ∙ failed n (m + 1) c (omega arith)
    ∙ same_trying (n + (m + 1)) (suc n + m) c (omega arith)

-- A terminal that connects gets 101 failures at most: after fewer or so many, a success makes it ready, with
-- one notice more to the other server, and it receives. The next failure shuts the program down, and the
-- thread ends without any notice.
pub connect_step-fail_times :
    (n : ℕ) (packet : Option Packet) (c : Connection)
    → n ≤ 101
    → (connect_step true packet (fail_times n (trying 0 c)) ≡ make_ready receiving (trying n c))
      × (connect_step false packet (fail_times 101 (trying 0 c))
          ≡ record c { phase = finished; shutdown = true })
unfolding connect_step
connect_step-fail_times n packet c l = (
  ap (connect_step true packet)
      (failed n 0 c (omega arith) ∙ same_trying (n + 0) (n) c (omega arith)),
  ap (connect_step false packet) (failed 101 0 c (omega arith)),
)
