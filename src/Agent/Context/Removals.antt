-- ===== src/Agent/Context/Removals.antt =====
-- What a refresh of the pinned files shows, and what it unpins.
use kraai.Base.{
  Bool, true, false, not, List, [], ◌∷◌, map, some, String, ◌≡◌, refl, sym, ◌∙◌, ap, any, all,
  filter, Bool-cases, inl, inr, arith,
}
use kraai.Base.Results.{Result, ok, err}
use kraai.Base.Utf8.{Bytes, bytes_eq, bytes_eq_iff}
use kraai.Agent.Context.{
  ContextStateMutation, pin_file, unpin_file, PinnedFile, PinnedReadFailure, has_path, apply,
  apply_mutations, Disk, remove, unavailable, read_pinned_file, refresh_pins,
}
use kraai.Agent.Context.Replay.{distinct_paths}

-- Whether a refresh keeps a file: it is read, or it cannot be read for now.
abbrev pub is_kept : Disk → PinnedFile → Bool
is_kept disk f = elim (read_pinned_file disk f) [
  | ok contents ↦ true
  | err failure ↦ elim failure [ remove reason ↦ false | unavailable message ↦ true ]
]

kept_step :
    (disk : Disk) (anchor : String) (f : PinnedFile) (fs : List PinnedFile)
    → is_kept disk f ≡ true
    → ((refresh_pins disk anchor (f ∷ fs)).removals ≡ (refresh_pins disk anchor fs).removals)
      × (map (λ s. s.path) (refresh_pins disk anchor (f ∷ fs)).snapshots
          ≡ f.path ∷ map (λ s. s.path) (refresh_pins disk anchor fs).snapshots)
unfolding refresh_pins
kept_step disk anchor f fs h = ground (arith, h)

dropped_step :
    (disk : Disk) (anchor : String) (f : PinnedFile) (fs : List PinnedFile)
    → is_kept disk f ≡ false
    → (reason : Bytes) × ((refresh_pins disk anchor (f ∷ fs)).removals
        ≡ unpin_file f.path (some reason) ∷ (refresh_pins disk anchor fs).removals)
      × ((refresh_pins disk anchor (f ∷ fs)).snapshots ≡ (refresh_pins disk anchor fs).snapshots)
unfolding refresh_pins
dropped_step disk anchor f fs h = go (read_pinned_file disk f) refl
  where
    go :
        (r : Result Bytes PinnedReadFailure)
        → read_pinned_file disk f ≡ r
        → (reason : Bytes) × ((refresh_pins disk anchor (f ∷ fs)).removals
            ≡ unpin_file f.path (some reason) ∷ (refresh_pins disk anchor fs).removals)
          × ((refresh_pins disk anchor (f ∷ fs)).snapshots
              ≡ (refresh_pins disk anchor fs).snapshots)
    go (ok contents) e = ground (arith, h, e)
    go (err (unavailable message)) e = ground (arith, h, e)
    go (err (remove reason)) e = (reason, rw (e, refresh_pins) refl, rw (e, refresh_pins) refl)

-- The mutation unpins another path.
spares : Bytes → ContextStateMutation → Bool
spares path (pin_file p scope) = false
spares path (unpin_file p reason) = not (bytes_eq path p)

apply_mutations-spares :
    (event : String) (f : PinnedFile) (ms : List ContextStateMutation) (fs : List PinnedFile)
    → all (spares f.path) ms ≡ true
    → apply_mutations event ms (f ∷ fs) ≡ f ∷ apply_mutations event ms fs
unfolding apply_mutations apply spares
apply_mutations-spares event f [] fs h = refl
apply_mutations-spares event f (pin_file p scope ∷ ms) fs h = ground (arith, h)
apply_mutations-spares event f (unpin_file p reason ∷ ms) fs h =
    let e : bytes_eq f.path p ≡ false = ground (arith, h) in
    let rest : all (spares f.path) ms ≡ true = ground (arith, h) in
    rw e (apply_mutations-spares event f ms (filter (λ g. not (has_path p g)) fs) rest)

removals-spares :
    (disk : Disk) (anchor : String) (path : Bytes) (fs : List PinnedFile)
    → any (has_path path) fs ≡ false
    → all (spares path) (refresh_pins disk anchor fs).removals ≡ true
unfolding spares
removals-spares disk anchor path [] h = unfold refresh_pins in refl
removals-spares disk anchor path (f ∷ fs) h =
    let ih = removals-spares disk anchor path fs (ground (arith, h)) in
    elim (Bool-cases (is_kept disk f)) [
      | inl e ↦ rw ((kept_step disk anchor f fs e).0) ih
      | inr e ↦
          let d = dropped_step disk anchor f fs e in
          let a = bytes_eq_iff path f.path in
          let b = bytes_eq_iff f.path path in rw (d.1) (ground (arith, ih, a, b, h))
    ]

filter-fresh :
    (path : Bytes) (fs : List PinnedFile)
    → any (has_path path) fs ≡ false
    → filter (λ g. not (has_path path g)) fs ≡ fs
filter-fresh path [] h = refl
filter-fresh path (f ∷ fs) h =
    let e : has_path path f ≡ false = ground (arith, h) in
    rw e (ap (λ l. f ∷ l) (filter-fresh path fs (ground (arith, h))))

unpin_head :
    (event : String) (f : PinnedFile) (reason : Bytes) (ms : List ContextStateMutation)
    (fs : List PinnedFile)
    → any (has_path f.path) fs ≡ false
    → apply_mutations event (unpin_file f.path (some reason) ∷ ms) (f ∷ fs)
      ≡ apply_mutations event ms fs
unfolding apply_mutations apply
unpin_head event f reason ms fs fresh =
    let self = (bytes_eq_iff f.path f.path).1 refl in rw (self, filter-fresh f.path fs fresh) refl

refresh_pins-is_kept :
    (disk : Disk) (anchor event : String) (fs : List PinnedFile)
    → distinct_paths fs ≡ true
    → (apply_mutations event (refresh_pins disk anchor fs).removals fs ≡ filter (is_kept disk) fs)
      × (map (λ s. s.path) (refresh_pins disk anchor fs).snapshots
          ≡ map (λ f. f.path) (filter (is_kept disk) fs))
refresh_pins-is_kept disk anchor event [] h = unfold refresh_pins apply_mutations in (refl, refl)
refresh_pins-is_kept disk anchor event (f ∷ fs) h =
    let rest : distinct_paths fs ≡ true = ground (arith, h) in
    let fresh : any (has_path f.path) fs ≡ false = ground (arith, h) in
    let ih = refresh_pins-is_kept disk anchor event fs rest in
    elim (Bool-cases (is_kept disk f)) [
      | inl e ↦
          let k = kept_step disk anchor f fs e in
          let spared =
            apply_mutations-spares event f (refresh_pins disk anchor fs).removals fs
              (removals-spares disk anchor f.path fs fresh) in
          (rw (k.0, e) (spared ∙ ap (λ l. f ∷ l) (ih.0)), rw (k.1, e) (ap (λ l. f.path ∷ l) (ih.1)))
      | inr e ↦
          let d = dropped_step disk anchor f fs e in
          (
            rw (d.1, e)
                (unpin_head event f (d.0) (refresh_pins disk anchor fs).removals fs fresh ∙ ih.0),
            rw (d.2, e) (ih.1),
          )
    ]

-- Where no path is pinned twice, exactly the files that a refresh shows are pinned once its
-- removals are applied.
pub refresh_pins-removals :
    (disk : Disk) (anchor event : String) (fs : List PinnedFile)
    → distinct_paths fs ≡ true
    → map (λ f. f.path) (apply_mutations event (refresh_pins disk anchor fs).removals fs)
      ≡ map (λ s. s.path) (refresh_pins disk anchor fs).snapshots
refresh_pins-removals disk anchor event fs h =
    let k = refresh_pins-is_kept disk anchor event fs h in ap (map (λ f. f.path)) (k.0) ∙ sym (k.1)
