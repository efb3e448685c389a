-- ===== src/Service/WaitChs.antt =====
-- waitChs: raft log index -> a channel with room for one response. A handler makes the channel of
-- its index, waits on it or for the time-out, and deletes it; applyLoop sends to it if it is there.
use mit_distributed_system.Prelude.{ℕ, Bool, true, false, Option, none, some, Outcome, ok, fatal}
use mit_distributed_system.Assoc.{Assoc, lookup, put, remove, nat_key}

abbrev pub WaitChs : Type 0 → Type 0
WaitChs R = Assoc ℕ (Option R)

module _ {R : Type 0} where
  -- if exist { log.Fatalf(...) }; waitChs[raftIndex] = make(chan ..., 1)
  unfoldable pub open_ch : ℕ → WaitChs R → Outcome (WaitChs R)
  open_ch index chs = elim (lookup index chs) [ none ↦ ok (put index none chs) | some ch ↦ fatal ]

  -- waitCh <- response, which stops applyLoop for ever if the channel is full
  unfoldable pub send : ℕ → R → WaitChs R → Outcome (WaitChs R)
  send index response chs = elim (lookup index chs) [
    | none ↦ ok chs
    | some none ↦ ok (put index (some response) chs)
    | some (some old) ↦ fatal
  ]

  -- What the select gets: `none` is the time-out. It comes if the channel stays empty, and it may be
  -- taken (`timed_out`) when a response is there as well.
  unfoldable pub receive : Bool → ℕ → WaitChs R → Option R
  receive true index chs = none
  receive false index chs = elim (lookup index chs) [ none ↦ none | some ch ↦ ch ]

  unfoldable pub close_ch : ℕ → WaitChs R → WaitChs R
  close_ch index chs = remove index chs
