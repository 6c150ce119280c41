-- ===== src/Trace/Sequence/Refinement.antt =====
-- `validate_sequence` as a whole: the ranks of a trace do not depend on one another.
use mathlib.Core.Path.{subst}
use ramulator.Prelude.{
  ℕ, ◌≤◌, ◌≡◌, ◌≢◌, ◌↔◌, sym, ◌∙◌, Option, none, some, List, ok, arith, bind_elim, ok_inj, String,
}
use ramulator.Prelude.Int.{ℤ}
use ramulator.PyValue.{Fields}
use ramulator.Addressing.Layout.{Layout}
use ramulator.Trace.Sequence.{Walk, first, validate_from, validate_sequence, resolve_limit}
use ramulator.Trace.Sequence.Ranks.{RankState, idle}
use ramulator.Trace.Sequence.Acceptance.{
  Event, read_events, total_repeat, rank_run, validate_from-Accepted, Accepted-validate_from,
}

-- What an accepted trace is, with no state carried from record to record.
pub record AcceptsTrace (limit : ℕ) (layout : Option Layout) (rs : List Fields) : Type 0 where
  pub events : List Event
  pub reads : read_events layout rs ≡ ok events
  pub within : total_repeat events ≤ limit
  pub ranks : (r : ℕ) → rank_run r events idle ≢ none

module _ (given : Option ℤ) (environment : Option String) (layout : Option Layout)
    (rs : List Fields) (limit : ℕ) (l : resolve_limit given environment ≡ ok limit) where
  AcceptsTrace-sound :
      (w : Walk)
      → validate_sequence given environment layout rs ≡ ok w
      → AcceptsTrace limit layout rs
  unfolding validate_sequence
  AcceptsTrace-sound w h =
      bind_elim (resolve_limit given environment) (λ (m : ℕ). validate_from m layout rs first) h
        λ m e h1.
          let q : m ≡ limit = ok_inj (sym e ∙ l) in
          let a =
            validate_from-Accepted limit layout rs first w
              (subst (λ (n : ℕ). validate_from n layout rs first ≡ ok w) q h1) in
          record {
            events = a.events;
            reads = a.reads;
            within = omega (arith, a.counted, a.within (omega arith));
            ranks = λ r n. none_or_some (sym n ∙ a.ranks r);
          }
    where
      none_or_some : {s : RankState} → none ≡ some s → ⊥
      none_or_some e = cc

  AcceptsTrace-complete :
      AcceptsTrace limit layout rs
      → (w : Walk) × (validate_sequence given environment layout rs ≡ ok w)
  unfolding validate_sequence
  AcceptsTrace-complete a = rw l (
      Accepted-validate_from limit layout rs a.events first a.reads (omega (arith, a.within))
        a.ranks)

  -- With the limit resolved, `validate_sequence` accepts exactly the traces each of whose records
  -- passes the checks of one record, whose repeats sum to at most the limit, and in which every
  -- rank, followed on its own from single-bank mode with no broadcast, takes each opcode that
  -- touches it.
  pub validate_sequence-ok_iff :
      ((w : Walk) × (validate_sequence given environment layout rs ≡ ok w))
      ↔ AcceptsTrace limit layout rs
  validate_sequence-ok_iff = (λ s. AcceptsTrace-sound s.0 s.1, AcceptsTrace-complete)
