-- ===== src/Trace/Sequence/History.antt =====
-- What must have come before an all-bank MAC in an accepted trace, and which modes go with a loaded
-- broadcast.
use mathlib.Core.Path.{subst}
use ramulator.Prelude.{
  ℕ, ◌≡◌, refl, sym, ap, ◌∙◌, Bool, true, false, ◌&&◌, ◌||◌, Option, some, List, [], ◌∷◌, ◌++◌, ok,
  arith, any, ◌⊎◌, inl, inr, Option-cases, Bool-cases, String, bind_elim, ok_inj,
}
use ramulator.Prelude.Int.{ℤ}
use ramulator.PyValue.{Fields}
use ramulator.Addressing.Layout.{Layout}
use ramulator.Trace.Opcode.{Opcode, read, write, sb, hab, hab_pim, pim_bcast, pim_mac, pim_mac_ab}
use ramulator.Trace.Sequence.{
  Mode, single_bank, host_all_bank, pim_all_bank, Walk, first, contains_rank, is_pim_mode,
  validate_from, validate_sequence, resolve_limit,
}
use ramulator.Trace.Sequence.Ranks.{RankState, idle, rank_step, local_step, view}
use ramulator.Trace.Sequence.Acceptance.{Event, read_events, rank_run, validate_from-Accepted}

abbrev is_reset : Opcode → Bool
is_reset sb = true
is_reset hab = true
is_reset _ = false

abbrev is_entry : Opcode → Bool
is_entry hab_pim = true
is_entry _ = false

-- An SB or a HAB that touches the rank
abbrev pub resets : ℕ → Event → Bool
resets r e = contains_rank r e.ranks && is_reset e.opcode

-- A HAB_PIM that touches the rank
abbrev pub enters : ℕ → Event → Bool
enters r e = contains_rank r e.ranks && is_entry e.opcode

-- The rank has been loaded by a broadcast, has entered PIM mode since, and has not been reset.
pub record IsPrimed (r : ℕ) (before : List Event) : Type 0 where
  pub earlier : List Event
  pub broadcast : Event
  pub since : List Event
  pub split : before ≡ earlier ++ (broadcast ∷ since)
  pub is_broadcast : broadcast.opcode ≡ pim_bcast
  pub touches : contains_rank r broadcast.ranks ≡ true
  pub kept : any (resets r) since ≡ false
  pub entered : any (enters r) since ≡ true

-- A run that ends loaded: it began so, or a broadcast has loaded the rank on the way.
record Kept (r : ℕ) (es : List Event) (s t : RankState) : Type 0 where
  was_loaded : s.1 ≡ true
  kept : any (resets r) es ≡ false
  entered : is_pim_mode t.0 ≡ true → is_pim_mode s.0 || any (enters r) es ≡ true

record Loaded (r : ℕ) (es : List Event) (t : RankState) : Type 0 where
  earlier : List Event
  broadcast : Event
  since : List Event
  split : es ≡ earlier ++ (broadcast ∷ since)
  is_broadcast : broadcast.opcode ≡ pim_bcast
  touches : contains_rank r broadcast.ranks ≡ true
  kept : any (resets r) since ≡ false
  entered : is_pim_mode t.0 ≡ true → any (enters r) since ≡ true

-- One step into a loaded state keeps a loaded state, or is a broadcast.
record Steady (r : ℕ) (e : Event) (s t : RankState) : Type 0 where
  was_loaded : s.1 ≡ true
  kept : resets r e ≡ false
  entered : is_pim_mode t.0 ≡ true → is_pim_mode s.0 || enters r e ≡ true

step_loaded :
    (op : Opcode) (m n : Mode) (l : Bool)
    → rank_step op (m, l) ≡ some (n, true)
    → ((l ≡ true)
        × (is_reset op ≡ false)
        × (is_pim_mode n ≡ true → is_pim_mode m || is_entry op ≡ true))
      ⊎ ((op ≡ pim_bcast) × (n ≡ host_all_bank))
step_loaded sb m n l h = cc
step_loaded hab m n l h = cc
step_loaded hab_pim m n l h = inl (ground arith)
step_loaded pim_bcast single_bank n l h = cc
step_loaded pim_bcast host_all_bank n l h = inr (refl, ground arith)
step_loaded pim_bcast pim_all_bank n l h = cc
step_loaded pim_mac_ab single_bank n l h = cc
step_loaded pim_mac_ab host_all_bank n l h = cc
step_loaded pim_mac_ab pim_all_bank n true h = inl (refl, refl, λ _. refl)
step_loaded pim_mac_ab pim_all_bank n false h = cc
step_loaded read single_bank n l h = inl (ground arith)
step_loaded write single_bank n l h = inl (ground arith)
step_loaded pim_mac single_bank n l h = inl (ground arith)
step_loaded read host_all_bank n l h = cc
step_loaded write host_all_bank n l h = cc
step_loaded pim_mac host_all_bank n l h = cc
step_loaded read pim_all_bank n l h = cc
step_loaded write pim_all_bank n l h = cc
step_loaded pim_mac pim_all_bank n l h = cc

next_loaded :
    (r : ℕ) (e : Event) (s t : RankState)
    → local_step e.opcode e.ranks r s ≡ some t
    → t.1 ≡ true
    → Steady r e s t
      ⊎ ((e.opcode ≡ pim_bcast) × (contains_rank r e.ranks ≡ true) × (t.0 ≡ host_all_bank))
next_loaded r e (m, l) (n, b) h loaded = elim (Bool-cases (contains_rank r e.ranks)) [
  | inl touched ↦
      let st : rank_step e.opcode (m, l) ≡ some (n, true) = ground (arith, loaded) in
      elim (step_loaded e.opcode m n l st) [
        | inl (was, no_reset, entry) ↦ inl (record {
          was_loaded = was;
          kept = ground (arith, no_reset);
          entered = λ q. ground (arith, entry q, touched);
        })
        | inr (bcast, host) ↦ inr (bcast, touched, host)
      ]
  | inr untouched ↦
      let me : m ≡ n = ground arith in
      let le : l ≡ b = ground arith in
      inl (record { was_loaded = le ∙ loaded; kept = ground arith; entered = λ q. ground arith })
]

run_step :
    (r : ℕ) (e : Event) (es : List Event) (s u : RankState)
    → rank_run r (e ∷ es) s ≡ some u
    → (t : RankState) × (local_step e.opcode e.ranks r s ≡ some t) × (rank_run r es t ≡ some u)
run_step r e es s u h = elim (Option-cases (local_step e.opcode e.ranks r s)) [
  | inl stuck ↦ absurd (ground arith)
  | inr (t, q) ↦ (t, q, ground arith)
]

pushed : (r : ℕ) (e : Event) (es : List Event) (u : RankState) → Loaded r es u → Loaded r (e ∷ es) u
pushed r e es u l = record {
  earlier = e ∷ l.earlier;
  broadcast = l.broadcast;
  since = l.since;
  split = ap (λ (xs : List Event). e ∷ xs) l.split;
  is_broadcast = l.is_broadcast;
  touches = l.touches;
  kept = l.kept;
  entered = l.entered;
}

run_origin :
    (r : ℕ) (es : List Event) (s u : RankState)
    → rank_run r es s ≡ some u
    → u.1 ≡ true
    → Kept r es s u ⊎ Loaded r es u
run_origin r [] s u h loaded =
    let q : s ≡ u = cc in
    inl (record {
      was_loaded = ap (λ (v : RankState). v.1) q ∙ loaded;
      kept = refl;
      entered = λ e. ground (arith, ap (λ (v : RankState). v.0) q);
    })
run_origin r (e ∷ es) s u h loaded =
    let (t, step, rest) = run_step r e es s u h in
    elim (run_origin r es t u rest loaded) [
      | inr l ↦ inr (pushed r e es u l)
      | inl k ↦ elim (next_loaded r e s t step k.was_loaded) [
        | inl y ↦ inl (record {
          was_loaded = y.was_loaded;
          kept = ground (arith, y.kept, k.kept);
          entered = λ q. ground (arith, k.entered q, y.entered);
        })
        | inr (bcast, touched, host) ↦ inr (record {
          earlier = [];
          broadcast = e;
          since = es;
          split = refl;
          is_broadcast = bcast;
          touches = touched;
          kept = k.kept;
          entered = λ q. ground (arith, k.entered q, host);
        })
      ]
    ]

primed :
    (r : ℕ) (before : List Event) (u : RankState)
    → rank_run r before idle ≡ some u
    → u.0 ≡ pim_all_bank
    → u.1 ≡ true
    → IsPrimed r before
primed r before u h pim loaded = elim (run_origin r before idle u h loaded) [
  | inl k ↦ absurd (ground (arith, k.was_loaded))
  | inr l ↦ record {
    earlier = l.earlier;
    broadcast = l.broadcast;
    since = l.since;
    split = l.split;
    is_broadcast = l.is_broadcast;
    touches = l.touches;
    kept = l.kept;
    entered = l.entered (rw pim);
  }
]

mac_state :
    (s t : RankState) → rank_step pim_mac_ab s ≡ some t → (s.0 ≡ pim_all_bank) × (s.1 ≡ true)
mac_state (single_bank, l) t h = cc
mac_state (host_all_bank, l) t h = cc
mac_state (pim_all_bank, true) t h = (refl, refl)
mac_state (pim_all_bank, false) t h = cc

-- A run over a list split in two.
run_split :
    (r : ℕ) (before after : List Event) (s u : RankState)
    → rank_run r (before ++ after) s ≡ some u
    → (t : RankState) × (rank_run r before s ≡ some t) × (rank_run r after t ≡ some u)
run_split r [] after s u h = (s, refl, h)
run_split r (e ∷ before) after s u h =
    let (v, step, rest) = run_step r e (before ++ after) s u h in
    let (t, first_part, second_part) = run_split r before after v u rest in
    (t, rw (step, rank_run) first_part, second_part)

-- In an accepted trace, every rank that an all-bank MAC touches has been loaded by a broadcast that
-- touches it, has entered PIM mode since, and has not been reset by SB or HAB since.
pub validate_sequence-IsPrimed :
    (given : Option ℤ) (environment : Option String) (layout : Option Layout) (rs : List Fields)
    (w : Walk) (before after : List Event) (mac : Event) (r : ℕ)
    → validate_sequence given environment layout rs ≡ ok w
    → read_events layout rs ≡ ok (before ++ (mac ∷ after))
    → mac.opcode ≡ pim_mac_ab
    → contains_rank r mac.ranks ≡ true
    → IsPrimed r before
unfolding validate_sequence
validate_sequence-IsPrimed given environment layout rs w before after mac r h reads is_mac touched =
    bind_elim (resolve_limit given environment) (λ (m : ℕ). validate_from m layout rs first) h
      λ limit e h1.
        let a = validate_from-Accepted limit layout rs first w h1 in
        let same : a.events ≡ before ++ (mac ∷ after) = ok_inj (sym a.reads ∙ reads) in
        let whole : rank_run r (before ++ (mac ∷ after)) idle ≡ some (view w.protocol r) =
          subst (λ (l : List Event). rank_run r l idle ≡ some (view w.protocol r)) same
            (a.ranks r) in
        let (s, until, rest) = run_split r before (mac ∷ after) idle (view w.protocol r) whole in
        let (t, step, _) = run_step r mac after s (view w.protocol r) rest in
        let mac_step : rank_step pim_mac_ab s ≡ some t = ground (arith, step, is_mac, touched) in
        let (pim, loaded) = mac_state s t mac_step in primed r before s until pim loaded
