-- ===== src/Socket/Tests.antt =====
-- Runs of the socket on a small kernel: a call blocks behind each that passed bytes, until `poll` has
-- been called, which fails once its patience is used up. `send` takes two bytes, `writev` three.
use devscan.Base.{
  ℕ, zero, suc, ◌≤◌, ◌<◌, ◌≡◌, refl, ap, sym, ◌∙◌, Bool, true, false, some, List, [], ◌∷◌, ◌++◌,
  arith, length, take, drop, take-append-drop, append-nil,
}
use devscan.Base.Int.{ℤ, minus_one}
use devscan.Base.Text.{Text, codes}
use devscan.Socket.Kernel.{
  Kernel, IsStream, IsPatient, Received, Sent, sent, send_failed, received, recv_failed,
  would_block, interrupted, flatten,
}
use devscan.Socket.BufferedReader.{IsValid, pending, empty}
use devscan.Socket.Receive.{Transfer, receive_complete, IsNext}
use devscan.Socket.ReceiveTotal.{receive_complete-IsNext}
use devscan.Socket.Send.{send_block, send_blocks}
use devscan.Socket.SendTotal.{IsTaken, send_block-IsTaken}
use devscan.Socket.Gather.{IsGathered, send_blocks-IsGathered, send_blocks-would_block}

-- Whether the next call passes bytes, the patience, the bytes to come, and those that were sent.
data Line : Type 0 where
  at : Bool → ℕ → Text → Text → Line

abbrev patience : Line → ℕ
patience (at b p i o) = p

abbrev to_come : Line → Text
to_come (at b p i o) = i

abbrev passed : Line → Text
passed (at b p i o) = o

abbrev line_recv : ℕ → Line → Received × Line
line_recv n (at true p i o) = (received (take n i), (at false p (drop n i) o))
line_recv n (at false p i o) = (recv_failed would_block, (at false p i o))

abbrev line_send : ℕ → Text → Line → Sent × Line
line_send n block (at true p i o) =
    (sent (length (take n block)), (at false p i (o ++ take n block)))
line_send n block (at false p i o) = (send_failed would_block, (at false p i o))

abbrev line_poll : Line → Bool × Line
line_poll (at b zero i o) = (false, (at b zero i o))
line_poll (at b (suc p) i o) = (true, (at true p i o))

abbrev line : Kernel
line = record {
  State = Line;
  recv = line_recv;
  send = λ more block s. line_send 2 block s;
  writev = λ blocks s. line_send 3 (flatten blocks) s;
  poll_in = line_poll;
  poll_out = line_poll;
  incoming = to_come;
  outgoing = passed;
}

length-take_le : (n : ℕ) (t : Text) → (length (take n t) ≤ n) × (length (take n t) ≤ length t)
length-take_le zero t = (omega arith, omega arith)
length-take_le (suc n) [] = (omega arith, omega arith)
length-take_le (suc n) (c ∷ t) =
    let h = length-take_le n t in (omega (arith, h.0), omega (arith, h.1))

take-length-take : (n : ℕ) (t : Text) → take (length (take n t)) t ≡ take n t
take-length-take zero t = refl
take-length-take (suc n) [] = refl
take-length-take (suc n) (c ∷ t) = ap (λ u. c ∷ u) (take-length-take n t)

abbrev got : Received × Line → Text
got (received bytes, s) = bytes
got (recv_failed e, s) = []

abbrev count : Sent × Line → ℕ
count (sent n, s) = n
count (send_failed e, s) = 0

-- What the call leaves to come, and what it has sent, in terms of its result.
recv_fits : (n : ℕ) (s : Line) → length (got (line_recv n s)) ≤ n
recv_fits n (at true p i o) = (length-take_le n i).0
recv_fits n (at false p i o) = omega arith

recv_next : (n : ℕ) (s : Line) → to_come s ≡ got (line_recv n s) ++ to_come (line_recv n s).1
recv_next n (at true p i o) = sym (take-append-drop n i)
recv_next n (at false p i o) = refl

send_fits : (n : ℕ) (block : Text) (s : Line) → count (line_send n block s) ≤ length block
send_fits n block (at true p i o) = (length-take_le n block).1
send_fits n block (at false p i o) = omega arith

send_next :
    (n : ℕ) (block : Text) (s : Line)
    → passed (line_send n block s).1 ≡ passed s ++ take (count (line_send n block s)) block
send_next n block (at true p i o) = ap (λ t. o ++ t) (sym (take-length-take n block))
send_next n block (at false p i o) = sym (append-nil o)

send_patience : (n : ℕ) (block : Text) (s : Line) → patience (line_send n block s).1 ≡ patience s
send_patience n block (at true p i o) = refl
send_patience n block (at false p i o) = refl

recv_patience : (n : ℕ) (s : Line) → patience (line_recv n s).1 ≡ patience s
recv_patience n (at true p i o) = refl
recv_patience n (at false p i o) = refl

poll_incoming : (s : Line) → to_come (line_poll s).1 ≡ to_come s
poll_incoming (at b zero i o) = refl
poll_incoming (at b (suc p) i o) = refl

poll_outgoing : (s : Line) → passed (line_poll s).1 ≡ passed s
poll_outgoing (at b zero i o) = refl
poll_outgoing (at b (suc p) i o) = refl

poll_patience : (s : Line) → (line_poll s).0 ≡ true → patience (line_poll s).1 < patience s
poll_patience (at b zero i o) h = cc
poll_patience (at b (suc p) i o) h = omega arith

never_interrupted :
    (n : ℕ) (block : Text) (s : Line) → ¬ ((line_send n block s).0 ≡ send_failed interrupted)
never_interrupted n block (at true p i o) h = cc
never_interrupted n block (at false p i o) h = cc

line-IsStream : IsStream line
line-IsStream = record {
  recv_fits = λ n s s' bytes h. rw (← ap got h) (recv_fits n s);
  recv_next = λ n s s' bytes h. recv_next n s ∙ ap (λ x. got x ++ to_come x.1) h;
  recv_failed_next = λ n s s' e h. recv_next n s ∙ ap (λ x. got x ++ to_come x.1) h;
  send_fits = λ more block s s' n h. rw (← ap count h) (send_fits 2 block s);
  send_next = λ more block s s' n h.
      sym (ap (λ x. passed x.1) h)
      ∙ send_next 2 block s
      ∙ ap (λ x. passed s ++ take (count x) block) h;
  send_failed_next = λ more block s s' e h.
      sym (ap (λ x. passed x.1) h)
      ∙ send_next 2 block s
      ∙ ap (λ x. passed s ++ take (count x) block) h
      ∙ append-nil (passed s);
  writev_fits = λ blocks s s' n h. rw (← ap count h) (send_fits 3 (flatten blocks) s);
  writev_next = λ blocks s s' n h.
      sym (ap (λ x. passed x.1) h)
      ∙ send_next 3 (flatten blocks) s
      ∙ ap (λ x. passed s ++ take (count x) (flatten blocks)) h;
  writev_failed_next = λ blocks s s' e h.
      sym (ap (λ x. passed x.1) h)
      ∙ send_next 3 (flatten blocks) s
      ∙ ap (λ x. passed s ++ take (count x) (flatten blocks)) h
      ∙ append-nil (passed s);
  poll_in_next = poll_incoming;
  poll_out_next = poll_outgoing;
}

line-IsPatient : IsPatient line patience
line-IsPatient = record {
  recv_budget = λ n s. omega (arith, recv_patience n s);
  poll_in_budget = poll_patience;
  send_budget = λ more block s. omega (arith, send_patience 2 block s);
  interrupted_budget = λ more block s h. absurd (never_interrupted 2 block s h);
  poll_out_budget = poll_patience;
}

empty-IsValid : IsValid empty
empty-IsValid = record { filled = refl; ordered = omega arith; bounded = omega arith }

-- Seven bytes are to come, and nothing was sent.
abbrev open_line : Line
open_line = (at true 5 (codes "abcdefg") [])

abbrev blocks : List Text
blocks = codes "ab" ∷ codes "cdef" ∷ codes "g" ∷ []

receive_complete-IsNext_example :
    (t : Transfer line) × (receive_complete line 20 5 empty open_line ≡ some t)
    × IsNext line 5 (pending empty ++ line.incoming open_line) t
receive_complete-IsNext_example =
    receive_complete-IsNext line line-IsStream patience line-IsPatient 20 5 empty open_line
      empty-IsValid (omega arith)

send_block-IsTaken_example :
    (out : ℤ × Line) × (send_block line 20 (codes "abcdefg") false open_line ≡ some out)
    × IsTaken line line-IsStream patience line-IsPatient (codes "abcdefg") open_line out
send_block-IsTaken_example =
    send_block-IsTaken line line-IsStream patience line-IsPatient 20 (codes "abcdefg") false
      open_line (omega arith)

send_blocks-IsGathered_example :
    (out : ℤ × Line) × (send_blocks line 20 blocks open_line ≡ some out)
    × IsGathered line line-IsStream patience line-IsPatient blocks open_line out
send_blocks-IsGathered_example =
    send_blocks-IsGathered line line-IsStream patience line-IsPatient 20 blocks open_line
      (omega arith) (omega arith)

send_blocks-would_block_example :
    send_blocks line 20 blocks (at false 5 [] []) ≡ some (minus_one, (at false 5 [] []))
send_blocks-would_block_example =
    send_blocks-would_block line line-IsStream patience line-IsPatient 20 blocks (at false 5 [] [])
      (at false 5 [] []) (omega arith) refl
