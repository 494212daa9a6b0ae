-- ===== src/Agent/Context/Replay.antt =====
-- Which files are pinned, and what a refresh shows of them.
use kraai.Base.{
  Bool, true, false, not, ◌&&◌, ◌||◌, List, [], ◌∷◌, ◌++◌, Option, none, some, String, ◌≡◌, refl,
  sym, ◌∙◌, any, filter, if◌then◌else◌, arith,
}
use kraai.Base.Utf8.{Bytes, bytes_eq, bytes_eq_iff}
use kraai.Agent.Context.{
  PinnedFileScope, ContextStateMutation, pin_file, unpin_file, ContextStateEvent, PinnedFile,
  has_path, pin, apply, apply_mutations, apply_events,
}

-- The scope under which a path is pinned, if it is.
abbrev pub scope_of : Bytes → List PinnedFile → Option PinnedFileScope
scope_of path [] = none
scope_of path (f ∷ fs) = if has_path path f then some f.scope else scope_of path fs

-- What a mutation makes of the scope of a path.
abbrev pub rescope : Bytes → ContextStateMutation → Option PinnedFileScope → Option PinnedFileScope
rescope path (pin_file p scope) old = if bytes_eq p path then some scope else old
rescope path (unpin_file p reason) old = if bytes_eq p path then none else old

abbrev pub rescope_all :
    Bytes → List ContextStateMutation → Option PinnedFileScope → Option PinnedFileScope
rescope_all path [] old = old
rescope_all path (m ∷ ms) old = rescope_all path ms (rescope path m old)

abbrev pub mutations_of : List ContextStateEvent → List ContextStateMutation
mutations_of [] = []
mutations_of (e ∷ es) = e.mutations ++ mutations_of es

abbrev pub distinct_paths : List PinnedFile → Bool
distinct_paths [] = true
distinct_paths (f ∷ fs) = not (any (has_path f.path) fs) && distinct_paths fs

scope_of-pin :
    (path : Bytes) (event : String) (p : Bytes) (scope : PinnedFileScope) (fs : List PinnedFile)
    → scope_of path (pin event p scope fs) ≡ rescope path (pin_file p scope) (scope_of path fs)
unfolding pin
scope_of-pin path event p scope [] = refl
scope_of-pin path event p scope (f ∷ fs) =
    let ih = scope_of-pin path event p scope fs in
    let a = bytes_eq_iff f.path p in
    let b = bytes_eq_iff f.path path in let c = bytes_eq_iff p path in ground (arith, ih, a, b, c)

scope_of-unpin :
    (path p : Bytes) (fs : List PinnedFile)
    → scope_of path (filter (λ f. not (has_path p f)) fs)
      ≡ (if bytes_eq p path then none else scope_of path fs)
scope_of-unpin path p [] = ground arith
scope_of-unpin path p (f ∷ fs) =
    let ih = scope_of-unpin path p fs in
    let a = bytes_eq_iff f.path p in
    let b = bytes_eq_iff f.path path in let c = bytes_eq_iff p path in ground (arith, ih, a, b, c)

scope_of-apply :
    (path : Bytes) (event : String) (m : ContextStateMutation) (fs : List PinnedFile)
    → scope_of path (apply event m fs) ≡ rescope path m (scope_of path fs)
unfolding apply
scope_of-apply path event (pin_file p scope) fs = scope_of-pin path event p scope fs
scope_of-apply path event (unpin_file p reason) fs = scope_of-unpin path p fs

scope_of-apply_mutations :
    (path : Bytes) (event : String) (ms : List ContextStateMutation) (fs : List PinnedFile)
    → scope_of path (apply_mutations event ms fs) ≡ rescope_all path ms (scope_of path fs)
unfolding apply_mutations
scope_of-apply_mutations path event [] fs = refl
scope_of-apply_mutations path event (m ∷ ms) fs =
    rw (← scope_of-apply path event m fs)
      (scope_of-apply_mutations path event ms (apply event m fs))

rescope_all-append :
    (path : Bytes) (ms ns : List ContextStateMutation) (old : Option PinnedFileScope)
    → rescope_all path (ms ++ ns) old ≡ rescope_all path ns (rescope_all path ms old)
rescope_all-append path [] ns old = refl
rescope_all-append path (m ∷ ms) ns old = rescope_all-append path ms ns (rescope path m old)

-- A path is pinned under a scope exactly as the mutations of the events in their order say for
-- this path alone: the last one that names it decides.
pub scope_of-apply_events :
    (path : Bytes) (es : List ContextStateEvent) (fs : List PinnedFile)
    → scope_of path (apply_events es fs) ≡ rescope_all path (mutations_of es) (scope_of path fs)
unfolding apply_events
scope_of-apply_events path [] fs = refl
scope_of-apply_events path (e ∷ es) fs =
    scope_of-apply_events path es (apply_mutations e.id e.mutations fs)
    ∙ rw (scope_of-apply_mutations path e.id e.mutations fs)
        (sym (rescope_all-append path e.mutations (mutations_of es) (scope_of path fs)))

any-pin :
    (path : Bytes) (event : String) (p : Bytes) (scope : PinnedFileScope) (fs : List PinnedFile)
    → any (has_path path) (pin event p scope fs) ≡ (bytes_eq p path || any (has_path path) fs)
unfolding pin
any-pin path event p scope [] = ground arith
any-pin path event p scope (f ∷ fs) =
    let ih = any-pin path event p scope fs in
    let a = bytes_eq_iff f.path p in
    let b = bytes_eq_iff f.path path in let c = bytes_eq_iff p path in ground (arith, ih, a, b, c)

distinct_paths-pin :
    (event : String) (p : Bytes) (scope : PinnedFileScope) (fs : List PinnedFile)
    → distinct_paths fs ≡ true
    → distinct_paths (pin event p scope fs) ≡ true
unfolding pin
distinct_paths-pin event p scope [] h = refl
distinct_paths-pin event p scope (f ∷ fs) h =
    let rest : distinct_paths fs ≡ true = ground (arith, h) in
    let ih = distinct_paths-pin event p scope fs rest in
    let a = bytes_eq_iff f.path p in
    let c = bytes_eq_iff p f.path in ground (arith, h, ih, a, c, any-pin f.path event p scope fs)

any-filter_path :
    (path p : Bytes) (fs : List PinnedFile)
    → any (has_path path) fs ≡ false
    → any (has_path path) (filter (λ f. not (has_path p f)) fs) ≡ false
any-filter_path path p [] h = refl
any-filter_path path p (f ∷ fs) h = ground (arith, h, any-filter_path path p fs (ground (arith, h)))

distinct_paths-unpin :
    (p : Bytes) (fs : List PinnedFile)
    → distinct_paths fs ≡ true
    → distinct_paths (filter (λ f. not (has_path p f)) fs) ≡ true
distinct_paths-unpin p [] h = refl
distinct_paths-unpin p (f ∷ fs) h =
    let rest : distinct_paths fs ≡ true = ground (arith, h) in
    let fresh : any (has_path f.path) fs ≡ false = ground (arith, h) in
    let ih = distinct_paths-unpin p fs rest in ground (arith, ih, any-filter_path f.path p fs fresh)

distinct_paths-apply_mutations :
    (event : String) (ms : List ContextStateMutation) (fs : List PinnedFile)
    → distinct_paths fs ≡ true
    → distinct_paths (apply_mutations event ms fs) ≡ true
unfolding apply_mutations apply
distinct_paths-apply_mutations event [] fs h = h
distinct_paths-apply_mutations event (pin_file p scope ∷ ms) fs h =
    distinct_paths-apply_mutations event ms (pin event p scope fs)
      (distinct_paths-pin event p scope fs h)
distinct_paths-apply_mutations event (unpin_file p reason ∷ ms) fs h =
    distinct_paths-apply_mutations event ms (filter (λ f. not (has_path p f)) fs)
      (distinct_paths-unpin p fs h)

pub distinct_paths-apply_events :
    (es : List ContextStateEvent) (fs : List PinnedFile)
    → distinct_paths fs ≡ true
    → distinct_paths (apply_events es fs) ≡ true
unfolding apply_events
distinct_paths-apply_events [] fs h = h
distinct_paths-apply_events (e ∷ es) fs h =
    distinct_paths-apply_events es (apply_mutations e.id e.mutations fs)
      (distinct_paths-apply_mutations e.id e.mutations fs h)
