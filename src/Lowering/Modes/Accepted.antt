-- ===== src/Lowering/Modes/Accepted.antt =====
-- The appended records follow the protocol that `validate_sequence` checks, and the two lists of the
-- lowering are the state that the validator reaches.
use ramulator.Prelude.{
  sym, ℕ, ◌≡◌, refl, ap, ◌∙◌, true, false, List, [], ◌∷◌, ◌++◌, Result, ok, ok_inj, bind_elim,
  ◌>>=◌, Bool-cases, Option-cases, inl, inr, ==_refl, some, not, ◌==◌, ltb, raise_if, then_elim,
  get_elem?, length,
}
use ramulator.PyValue.{Fields, end, get}
use ramulator.Addressing.Layout.{Layout, find}
use ramulator.Trace.Record.{Parsed}
use ramulator.Trace.Opcode.{Opcode, is_pim_mac, sb, hab, hab_pim, pim_bcast}
use ramulator.Trace.Sequence.{
  Mode, single_bank, host_all_bank, pim_all_bank, Protocol, assign, is_single, is_host_mode,
  is_pim_mode, start, sequence_step, record_rank_ids, rank_level_of, is_interleaved, at_index,
}
use ramulator.Lowering.Modes.{
  Target, Emitted, State, append, append_all, set_mode, set_ready, rank_id_for, target_of,
  transition_to_single_bank, transition_to_host_all_bank, ensure_all_bank_load,
  transition_to_pim_all_bank,
}

-- What the validator reads of an appended record.
abbrev pub as_parsed : Emitted → Parsed
as_parsed r = record { opcode = r.opcode; repeat = r.repeat; addr_vec = r.addr_vec }

-- The validator's steps along the records, each at the ranks that `_record_rank_ids` finds.
abbrev pub protocol_run : Layout → List Emitted → Protocol → Result Protocol
protocol_run layout [] p = ok p
protocol_run layout (r ∷ rs) p = do
  ranks ← record_rank_ids (as_parsed r) r.extra_fields (some layout)
  q ← sequence_step r.opcode ranks p
  protocol_run layout rs q

-- The lowering's rank coordinate is the layout's.
abbrev pub Targets : Layout → Target → Type 0
Targets layout t =
    (level : ℕ) × (find "Rank" layout.level_names ≡ ok level) × (t.rank_level ≡ some level)

-- The validator accepts the records so far, and they lead it to the modes that the lowering holds.
abbrev pub Follows : Layout → Target → State → Type 0
Follows layout t s = Targets layout t × (protocol_run layout s.records start ≡ ok s.protocol)

pub target_of-Targets :
    (layout : Layout) (size : ℕ) (t : Target)
    → target_of (some layout) size ≡ ok t
    → Targets layout t
unfolding target_of
target_of-Targets layout size t h =
    then_elim (raise_if (not (length layout.level_names == size)) _) _ h λ _ h1.
      bind_elim (find "Rank" layout.level_names) _ h1 λ level at_rank h2.
        bind_elim (at_index layout.level_sizes level) _ h2 λ count _ h3.
          then_elim (raise_if (count == 0) _) _ h3
            λ _ same. (level, at_rank, ap (λ (x : Target). x.rank_level) (sym (ok_inj same)))

protocol_run-append :
    (layout : Layout) (rs later : List Emitted) (p q : Protocol)
    → protocol_run layout rs p ≡ ok q
    → protocol_run layout (rs ++ later) p ≡ protocol_run layout later q
protocol_run-append layout [] later p q h = ap (protocol_run layout later) (ok_inj h)
protocol_run-append layout (r ∷ rs) later p q h =
    bind_elim (record_rank_ids (as_parsed r) r.extra_fields (some layout)) _ h λ ranks e1 h1.
      bind_elim (sequence_step r.opcode ranks p) _ h1
        λ p' e2 h2. rw (e1, e2) (protocol_run-append layout rs later p' q h2)

-- The validator finds the rank that the lowering does.
record_rank_ids-rank_id_for :
    (layout : Layout) (t : Target) (op : Opcode) (av : List ℕ) (n : ℕ) (extra : Fields) (rank : ℕ)
    → Targets layout t
    → rank_id_for t av ≡ ok rank
    → is_interleaved op extra ≡ false
    → record_rank_ids (record { opcode = op; repeat = n; addr_vec = av }) extra (some layout)
      ≡ ok (rank ∷ [])
unfolding record_rank_ids rank_id_for rank_level_of
record_rank_ids-rank_id_for layout t op av n extra rank (level, at_rank, e) h apart =
    elim (Option-cases (get_elem? av level)) [
      | inl missing ↦ absurd (cc (rw (e, rank_id_for, missing) at h))
      | inr (r, found) ↦
          then_elim (raise_if (not (ltb r t.rank_count)) _) _ (rw (e, rank_id_for, found) at h)
            λ _ same.
              rw (at_rank, at_index, found, apart) (ap (λ (x : ℕ). ok (x ∷ [])) (ok_inj same))
    ]

-- One record more, with the validator's step at its rank.
pub appended :
    (layout : Layout) (t : Target) (s : State) (op : Opcode) (av : List ℕ) (n : ℕ) (extra : Fields)
    (rank : ℕ) (q : Protocol)
    → Follows layout t s
    → rank_id_for t av ≡ ok rank
    → is_interleaved op extra ≡ false
    → sequence_step op (rank ∷ []) s.protocol ≡ ok q
    → Targets layout t × (protocol_run layout (append op av n extra s).records start ≡ ok q)
unfolding append
appended layout t s op av n extra rank q f e apart step = (
  f.0,
  protocol_run-append layout s.records _ start s.protocol f.1
      ∙ rw (record_rank_ids-rank_id_for layout t op av n extra rank f.0 e apart, step) refl,
)

-- A record without further fields is not interleaved.
pub is_interleaved-end : (op : Opcode) → is_interleaved op end ≡ false
unfolding get
is_interleaved-end op = elim (Bool-cases (is_pim_mac op)) [
  | inl mac ↦ rw mac refl
  | inr other ↦ rw other refl
]

pub single_mode : (m : Mode) → is_single m ≡ true → m ≡ single_bank
single_mode single_bank h = refl
single_mode host_all_bank h = cc
single_mode pim_all_bank h = cc

pub assigned : {A : Type 0} (rank : ℕ) (a : A) (d : ℕ → A) → assign (rank ∷ []) a d rank ≡ a
assigned rank a d = rw (==_refl rank)

pub leaves :
    (layout : Layout) (t : Target) (av : List ℕ) (s : State) (rank : ℕ)
    → Follows layout t s
    → rank_id_for t av ≡ ok rank
    → Follows layout t (set_ready rank false (set_mode rank single_bank (append sb av 1 end s)))
unfolding append sequence_step
leaves layout t av s rank f e =
    appended layout t s sb av 1 end rank _ f e (is_interleaved-end sb) refl

pub transition_to_single_bank_lem :
    (layout : Layout) (t : Target) (av : List ℕ) (s : State) (rank : ℕ)
    → Follows layout t s
    → rank_id_for t av ≡ ok rank
    → (s' : State) × (transition_to_single_bank t av s ≡ ok s')
      × Follows layout t s'
      × (is_single (s'.protocol.modes rank) ≡ true)
unfolding transition_to_single_bank append
transition_to_single_bank_lem layout t av s rank f e =
    elim (Bool-cases (is_single (s.protocol.modes rank))) [
      | inl there ↦ (s, rw (e, there), f, there)
      | inr away ↦
          let s' = set_ready rank false (set_mode rank single_bank (append sb av 1 end s)) in
          (
            s',
            rw (e, away),
            leaves layout t av s rank f e,
            ap is_single (assigned rank single_bank s.protocol.modes),
          )
    ]

enters_host :
    (layout : Layout) (t : Target) (av : List ℕ) (s : State) (rank : ℕ)
    → Follows layout t s
    → rank_id_for t av ≡ ok rank
    → Follows layout t (set_ready rank false (set_mode rank host_all_bank (append hab av 1 end s)))
unfolding append sequence_step
enters_host layout t av s rank f e =
    appended layout t s hab av 1 end rank _ f e (is_interleaved-end hab) refl

pub transition_to_host_all_bank_lem :
    (layout : Layout) (t : Target) (av : List ℕ) (s : State) (rank : ℕ)
    → Follows layout t s
    → rank_id_for t av ≡ ok rank
    → (s' : State) × (transition_to_host_all_bank t av s ≡ ok s')
      × Follows layout t s'
      × (is_host_mode (s'.protocol.modes rank) ≡ true)
unfolding transition_to_host_all_bank append
transition_to_host_all_bank_lem layout t av s rank f e =
    elim (Bool-cases (is_host_mode (s.protocol.modes rank))) [
      | inl there ↦ (s, rw (e, there), f, there)
      | inr away ↦
          let s' = set_ready rank false (set_mode rank host_all_bank (append hab av 1 end s)) in
          (
            s',
            rw (e, away),
            enters_host layout t av s rank f e,
            ap is_host_mode (assigned rank host_all_bank s.protocol.modes),
          )
    ]

pub broadcast-Follows :
    (layout : Layout) (t : Target) (av : List ℕ) (n : ℕ) (s : State) (rank : ℕ)
    → Follows layout t s
    → rank_id_for t av ≡ ok rank
    → is_host_mode (s.protocol.modes rank) ≡ true
    → Follows layout t (set_ready rank true (append pim_bcast av n end s))
unfolding append sequence_step
broadcast-Follows layout t av n s rank f e host =
    appended layout t s pim_bcast av n end rank _ f e (is_interleaved-end pim_bcast) (rw host)

-- `append` keeps the modes.
protocol-append :
    (op : Opcode) (av : List ℕ) (n : ℕ) (extra : Fields) (s : State)
    → (append op av n extra s).protocol ≡ s.protocol
unfolding append
protocol-append op av n extra s = refl

pub ensure_all_bank_load_lem :
    (layout : Layout) (t : Target) (av : List ℕ) (s : State) (rank : ℕ)
    → Follows layout t s
    → rank_id_for t av ≡ ok rank
    → (s' : State) × (ensure_all_bank_load t av s ≡ ok s')
      × Follows layout t s'
      × (is_host_mode (s'.protocol.modes rank) ≡ true)
      × (s'.protocol.bcasts rank ≡ true)
unfolding ensure_all_bank_load
ensure_all_bank_load_lem layout t av s rank f e =
    let (h, eh, fh, host) = transition_to_host_all_bank_lem layout t av s rank f e in
    elim (Bool-cases (h.protocol.bcasts rank)) [
      | inl ready ↦ (h, rw (eh, e, ready), fh, host, ready)
      | inr unloaded ↦ (
        set_ready rank true (append pim_bcast av 1 end h),
        rw (eh, e, unloaded),
        broadcast-Follows layout t av 1 h rank fh e host,
        ap (λ (p : Protocol). is_host_mode (p.modes rank)) (protocol-append pim_bcast av 1 end h)
            ∙ host,
        assigned rank true (append pim_bcast av 1 end h).protocol.bcasts,
      )
    ]

enters_pim :
    (layout : Layout) (t : Target) (av : List ℕ) (s : State) (rank : ℕ)
    → Follows layout t s
    → rank_id_for t av ≡ ok rank
    → s.protocol.bcasts rank ≡ true
    → Follows layout t (set_mode rank pim_all_bank (append hab_pim av 1 end s))
unfolding append sequence_step
enters_pim layout t av s rank f e loaded =
    appended layout t s hab_pim av 1 end rank _ f e (is_interleaved-end hab_pim) (rw loaded)

host_not_pim : (m : Mode) → is_host_mode m ≡ true → is_pim_mode m ≡ false
host_not_pim single_bank h = refl
host_not_pim host_all_bank h = refl
host_not_pim pim_all_bank h = cc

pub transition_to_pim_all_bank_lem :
    (layout : Layout) (t : Target) (av : List ℕ) (s : State) (rank : ℕ)
    → Follows layout t s
    → rank_id_for t av ≡ ok rank
    → is_host_mode (s.protocol.modes rank) ≡ true
    → s.protocol.bcasts rank ≡ true
    → (s' : State) × (transition_to_pim_all_bank t av s ≡ ok s')
      × Follows layout t s'
      × (is_pim_mode (s'.protocol.modes rank) ≡ true)
      × (s'.protocol.bcasts rank ≡ true)
unfolding transition_to_pim_all_bank
transition_to_pim_all_bank_lem layout t av s rank f e host loaded = (
  set_mode rank pim_all_bank (append hab_pim av 1 end s),
  rw (e, host_not_pim (s.protocol.modes rank) host, host, loaded),
  enters_pim layout t av s rank f e loaded,
  ap is_pim_mode (assigned rank pim_all_bank (append hab_pim av 1 end s).protocol.modes),
  ap (λ (p : Protocol). p.bcasts rank) (protocol-append hab_pim av 1 end s) ∙ loaded,
)

-- Records whose step keeps the protocol, one after the other.
pub append_all-Follows :
    (layout : Layout) (t : Target) (op : Opcode) (av ns : List ℕ) (s : State) (rank : ℕ)
    → Follows layout t s
    → rank_id_for t av ≡ ok rank
    → sequence_step op (rank ∷ []) s.protocol ≡ ok s.protocol
    → Follows layout t (append_all op av ns s) × ((append_all op av ns s).protocol ≡ s.protocol)
unfolding append_all append
append_all-Follows layout t op av [] s rank f e keeps = (f, refl)
append_all-Follows layout t op av (n ∷ ns) s rank f e keeps =
    append_all-Follows layout t op av ns (append op av n end s) rank
      (appended layout t s op av n end rank s.protocol f e (is_interleaved-end op) keeps) e keeps
