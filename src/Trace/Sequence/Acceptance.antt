-- ===== src/Trace/Sequence/Acceptance.antt =====
-- The loop of `validate_sequence` against the checks of one record, the sum of the repeats, and the
-- way of each rank through the trace.
use mathlib.Core.Path.{subst}
use ramulator.Prelude.{
  ℕ, ◌+◌, ◌≤◌, ◌≡◌, ◌≢◌, refl, sym, ap, ◌∙◌, Option, none, some, List, [], ◌∷◌, Result, ok, arith,
  bind_elim, then_elim, raise_if, ◌>>=◌, ltb, ok_inj, ltb→le, le→ltb, raise_if-ok,
}
use ramulator.PyValue.{Fields}
use ramulator.Addressing.Layout.{Layout}
use ramulator.Trace.Opcode.{Opcode}
use ramulator.Trace.Record.{validate_record}
use ramulator.Trace.Sequence.{
  Protocol, Walk, sequence_step, record_rank_ids, slim_if_rich, validate_next, validate_from,
}
use ramulator.Trace.Sequence.Ranks.{
  RankState, local_step, view, sequence_step_sound, sequence_step_complete,
}

-- What the protocol sees of a record.
pub record Event : Type 0 where
  pub opcode : Opcode
  pub repeat : ℕ
  pub ranks : List ℕ

-- The checks of one record, which look at no other record.
unfoldable pub read_event : Option Layout → Fields → Result Event
read_event layout r = do
  slim ← slim_if_rich r
  p ← validate_record slim layout
  ranks ← record_rank_ids p slim layout
  ok (record { opcode = p.opcode; repeat = p.repeat; ranks = ranks })

unfoldable pub read_events : Option Layout → List Fields → Result (List Event)
unfolding read_event
read_events layout [] = ok []
read_events layout (r ∷ rs) = do e ← read_event layout r; es ← read_events layout rs; ok (e ∷ es)

abbrev pub total_repeat : List Event → ℕ
total_repeat [] = 0
total_repeat (e ∷ es) = e.repeat + total_repeat es

-- One rank's way through a trace, `none` once it is refused.
abbrev pub rank_run : ℕ → List Event → RankState → Option RankState
rank_run r [] s = some s
rank_run r (e ∷ es) s = elim (local_step e.opcode e.ranks r s) [
  | none ↦ none
  | some t ↦ rank_run r es t
]

record Advances (limit : ℕ) (layout : Option Layout) (r : Fields) (w w' : Walk) : Type 0 where
  event : Event
  reads : read_event layout r ≡ ok event
  within : w.expanded + event.repeat ≤ limit
  counted : w'.expanded ≡ w.expanded + event.repeat
  stepped : sequence_step event.opcode event.ranks w.protocol ≡ ok w'.protocol

validate_next-Advances :
    (limit : ℕ) (layout : Option Layout) (r : Fields) (w w' : Walk)
    → validate_next limit layout r w ≡ ok w'
    → Advances limit layout r w w'
unfolding validate_next read_event
validate_next-Advances limit layout r w w' h = bind_elim (slim_if_rich r) _ h λ slim e1 h1.
    bind_elim (validate_record slim layout) _ h1 λ p e2 h2.
      then_elim (raise_if (ltb limit (w.expanded + p.repeat)) _) _ h2 λ e3 h3.
        bind_elim (record_rank_ids p slim layout) _ h3 λ ranks e4 h4.
          bind_elim (sequence_step p.opcode ranks w.protocol) _ h4 λ next e5 h5.
            let q : w' ≡ record { expanded = w.expanded + p.repeat; protocol = next } =
              sym (ok_inj h5) in
            record {
              event = record { opcode = p.opcode; repeat = p.repeat; ranks = ranks };
              reads = rw (e1, e2, e4);
              within = ltb→le limit (w.expanded + p.repeat) (raise_if-ok _ _ e3);
              counted = ap (λ (v : Walk). v.expanded) q;
              stepped = e5 ∙ ap (λ (v : Walk). ok v.protocol) (sym q);
            }

Advances-validate_next :
    (limit : ℕ) (layout : Option Layout) (r : Fields) (w : Walk) (e : Event) (q : Protocol)
    → read_event layout r ≡ ok e
    → w.expanded + e.repeat ≤ limit
    → sequence_step e.opcode e.ranks w.protocol ≡ ok q
    → validate_next limit layout r w
      ≡ ok (record { expanded = w.expanded + e.repeat; protocol = q })
unfolding validate_next read_event
Advances-validate_next limit layout r w e q reads within stepped =
    bind_elim (slim_if_rich r) _ reads λ slim e1 h1.
      bind_elim (validate_record slim layout) _ h1 λ p e2 h2.
        bind_elim (record_rank_ids p slim layout) _ h2 λ ranks e3 h3.
          let q' : e ≡ record { opcode = p.opcode; repeat = p.repeat; ranks = ranks } =
            sym (ok_inj h3) in
          let room : w.expanded + p.repeat ≤ limit =
            rw (ap (λ (d : Event). d.repeat) (sym q')) within in
          let step : sequence_step p.opcode ranks w.protocol ≡ ok q =
            rw (ap (λ (d : Event). d.opcode) (sym q'), ap (λ (d : Event). d.ranks) (sym q'))
              stepped in
          rw (
            e1,
            e2,
            le→ltb (w.expanded + p.repeat) limit room,
            e3,
            step,
            ap (λ (d : Event). d.repeat) q',
          )

rank_run-cons :
    (r : ℕ) (e : Event) (es : List Event) (s t : RankState)
    → local_step e.opcode e.ranks r s ≡ some t
    → rank_run r (e ∷ es) s ≡ rank_run r es t
rank_run-cons r e es s t q = rw (q, rank_run)

rank_run-none :
    (r : ℕ) (e : Event) (es : List Event) (s : RankState)
    → local_step e.opcode e.ranks r s ≡ none
    → rank_run r (e ∷ es) s ≡ none
rank_run-none r e es s q = rw (q, rank_run)

pub record Accepted (limit : ℕ) (layout : Option Layout) (rs : List Fields) (w w' : Walk)
    : Type 0 where
  pub events : List Event
  pub reads : read_events layout rs ≡ ok events
  pub counted : w'.expanded ≡ w.expanded + total_repeat events
  pub within : w.expanded ≤ limit → w'.expanded ≤ limit
  pub ranks : (r : ℕ) → rank_run r events (view w.protocol r) ≡ some (view w'.protocol r)

pub validate_from-Accepted :
    (limit : ℕ) (layout : Option Layout) (rs : List Fields) (w w' : Walk)
    → validate_from limit layout rs w ≡ ok w'
    → Accepted limit layout rs w w'
unfolding validate_from read_events
validate_from-Accepted limit layout [] w w' h =
    let q : w' ≡ w = sym (ok_inj h) in
    rw q (record {
      events = [];
      reads = refl;
      counted = omega arith;
      within = λ l. l;
      ranks = λ r. refl;
    })
validate_from-Accepted limit layout (r ∷ rs) w w' h =
    bind_elim (validate_next limit layout r w) _ h λ v e1 h1.
      let a = validate_next-Advances limit layout r w v e1 in
      let b = validate_from-Accepted limit layout rs v w' h1 in
      record {
        events = a.event ∷ b.events;
        reads = rw (a.reads, b.reads);
        counted = omega (arith, a.counted, b.counted);
        within = λ l. b.within (rw a.counted a.within);
        ranks = λ i.
            rank_run-cons i a.event b.events (view w.protocol i) (view v.protocol i)
              (sequence_step_sound a.event.opcode a.event.ranks w.protocol v.protocol a.stepped i)
            ∙ b.ranks i;
      }

step_not_none :
    (r : ℕ) (e : Event) (es : List Event) (s : RankState)
    → rank_run r (e ∷ es) s ≢ none
    → local_step e.opcode e.ranks r s ≢ none
step_not_none r e es s h q = h (rank_run-none r e es s q)

rest_not_none :
    (r : ℕ) (e : Event) (es : List Event) (s t : RankState)
    → local_step e.opcode e.ranks r s ≡ some t
    → rank_run r (e ∷ es) s ≢ none
    → rank_run r es t ≢ none
rest_not_none r e es s t q h n = h (rank_run-cons r e es s t q ∙ n)

pub Accepted-validate_from :
    (limit : ℕ) (layout : Option Layout) (rs : List Fields) (es : List Event) (w : Walk)
    → read_events layout rs ≡ ok es
    → w.expanded + total_repeat es ≤ limit
    → ((r : ℕ) → rank_run r es (view w.protocol r) ≢ none)
    → (w' : Walk) × (validate_from limit layout rs w ≡ ok w')
unfolding validate_from read_events
Accepted-validate_from limit layout [] es w reads within ranks = (w, refl)
Accepted-validate_from limit layout (r ∷ rs) es w reads within ranks =
    bind_elim (read_event layout r) _ reads λ e e1 h1.
      bind_elim (read_events layout rs) _ h1 λ es' e2 h2.
        let q : es ≡ e ∷ es' = sym (ok_inj h2) in
        let room : w.expanded + (e.repeat + total_repeat es') ≤ limit =
          subst (λ (l : List Event). w.expanded + total_repeat l ≤ limit) q within in
        let run : (i : ℕ) → rank_run i (e ∷ es') (view w.protocol i) ≢ none =
          λ i. subst (λ (l : List Event). rank_run i l (view w.protocol i) ≢ none) q (ranks i) in
        let (p, st) =
          sequence_step_complete e.opcode e.ranks w.protocol
            (λ i. step_not_none i e es' (view w.protocol i) (run i)) in
        let v : Walk = record { expanded = w.expanded + e.repeat; protocol = p } in
        rw (Advances-validate_next limit layout r w e p e1 (omega arith) st) (
          Accepted-validate_from limit layout rs es' v e2 (omega arith) (λ i.
            rest_not_none i e es' (view w.protocol i) (view p i)
              (sequence_step_sound e.opcode e.ranks w.protocol p st i) (run i)))
