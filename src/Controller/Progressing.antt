-- ===== src/Controller/Progressing.antt =====
-- What the loop over the entries leaves in the status.
use project_onboarding_opera.Base.{
  String, ◌≡◌, refl, sym, ◌∙◌, ap, Bool, true, false, not, ◌&&◌, Option, none, some, is_some, List,
  [], ◌∷◌, ◌++◌, ok, Error, or_else,
}
use project_onboarding_opera.Api.{NamespaceSpec}
use project_onboarding_opera.Helpers.{is_enabled, is_offboard}
use project_onboarding_opera.Helpers.Status.{Bytes}
use project_onboarding_opera.Effects.{Effect, Attempt, got, failed, pure, attempt, ◌>>=◌}
use project_onboarding_opera.Effects.Keeps.{
  Yields, Keeps-Yields, Yields-pure, Yields-then, Yields-if, Yields-weaken,
}
use project_onboarding_opera.Controller.Subject.{NamespaceStatus}
use project_onboarding_opera.Controller.Entries.{
  Report, Progress, no_progress, note, report_of, reconcile_entry, reconcile_entries,
}

abbrev pub status_names : List NamespaceStatus → List String
status_names [] = []
status_names (status ∷ statuses) = status.name ∷ status_names statuses

abbrev pub entry_names : List NamespaceSpec → List String
entry_names [] = []
entry_names (ns_spec ∷ namespaces) = ns_spec.name ∷ entry_names namespaces

abbrev pub every_ready : List NamespaceStatus → Bool
every_ready [] = true
every_ready (status ∷ statuses) = status.ready && every_ready statuses

-- A report of the entry whose status is ready exactly if there was no error.
abbrev Honest : String → Report → Type 0
Honest name report =
    (report.status.name ≡ name) × (report.status.ready ≡ not (is_some report.error))

-- `allReady` says that every status is ready, and that there is no first error.
abbrev pub Coherent : Progress → Type 0
Coherent p = (p.all_ready ≡ every_ready p.namespaces) × (p.all_ready ≡ not (is_some p.first_error))

and_assoc : (a b c : Bool) → (a && (b && c)) ≡ ((a && b) && c)
and_assoc true b c = refl
and_assoc false b c = refl

and_true : (a : Bool) → (a && true) ≡ a
and_true true = refl
and_true false = refl

every_ready-snoc :
    (statuses : List NamespaceStatus) (status : NamespaceStatus)
    → every_ready (statuses ++ status ∷ []) ≡ (every_ready statuses && status.ready)
every_ready-snoc [] status = and_true status.ready
every_ready-snoc (other ∷ statuses) status =
    ap (λ b. other.ready && b) (every_ready-snoc statuses status)
    ∙ and_assoc other.ready (every_ready statuses) status.ready

status_names-snoc :
    (statuses : List NamespaceStatus) (status : NamespaceStatus)
    → status_names (statuses ++ status ∷ []) ≡ status_names statuses ++ status.name ∷ []
status_names-snoc [] status = refl
status_names-snoc (other ∷ statuses) status =
    ap (List.◌∷◌ other.name) (status_names-snoc statuses status)

note-Coherent :
    (name : String) (p : Progress) (report : Report)
    → Honest name report
    → Coherent p
    → Coherent (note p report)
unfolding note
note-Coherent name p report (named, honest) (ready, first) = branch report.error honest
  where
    branch :
        (error : Option Error)
        → report.status.ready ≡ not (is_some error)
        → Coherent (note p record { status = report.status; error = error })
    branch none h = (
      rw (every_ready-snoc p.namespaces report.status, h)
          (with_true (every_ready p.namespaces) ready),
      first,
    )
      where
        with_true : (b : Bool) → p.all_ready ≡ b → p.all_ready ≡ (b && true)
        with_true true e = e
        with_true false e = e
    branch (some e) h = (
      rw (every_ready-snoc p.namespaces report.status, h) (with_false (every_ready p.namespaces)),
      kept p.first_error,
    )
      where
        with_false : (b : Bool) → false ≡ (b && false)
        with_false true = refl
        with_false false = refl

        kept : (f : Option Error) → false ≡ not (is_some (or_else f (some e)))
        kept (some f) = refl
        kept none = refl

note-names :
    (p : Progress) (report : Report)
    → status_names (note p report).namespaces ≡ status_names p.namespaces ++ report.status.name ∷ []
unfolding note
note-names p report = branch report.error
  where
    branch :
        (error : Option Error)
        → status_names (note p record { status = report.status; error = error }).namespaces
          ≡ status_names p.namespaces ++ report.status.name ∷ []
    branch none = status_names-snoc p.namespaces report.status
    branch (some e) = status_names-snoc p.namespaces report.status

append-snoc : {A : Type 0} (xs : List A) (y : A) (ys : List A) → (xs ++ y ∷ []) ++ ys ≡ xs ++ y ∷ ys
append-snoc [] y ys = refl
append-snoc (x ∷ xs) y ys = ap (List.◌∷◌ x) (append-snoc xs y ys)

append_nil : {A : Type 0} (xs : List A) → xs ++ [] ≡ xs
append_nil [] = refl
append_nil (x ∷ xs) = ap (List.◌∷◌ x) (append_nil xs)

module _ {S : Type 0} (bytes_of : String → Bytes) (cleanup : NamespaceSpec → Effect S (Unit {0}))
    (reconcile : NamespaceSpec → Effect S (Unit {0})) where
  report-Honest :
      (name done : String) (r : Attempt (Unit {0})) → Honest name (report_of bytes_of name done r)
  unfolding report_of
  report-Honest name done (got u) = (refl, refl)
  report-Honest name done (failed e) = (refl, refl)

  attempted-Honest :
      (name done : String) (m : Effect S (Unit {0}))
      → Yields
          (λ s. Unit {0})
          (Honest name)
          (attempt m >>= λ r. pure (report_of bytes_of name done r))
  attempted-Honest name done m =
      Yields-then (λ _. Unit) _ _ _ (Keeps-Yields _ record { keeps = λ s h. tt })
        λ r _. Yields-pure _ _ (report-Honest name done r)

  entry-Honest :
      (ns_spec : NamespaceSpec)
      → Yields
          (λ s. Unit {0})
          (Honest ns_spec.name)
          (reconcile_entry bytes_of cleanup reconcile ns_spec)
  unfolding reconcile_entry
  entry-Honest ns_spec =
      Yields-if _ (is_offboard ns_spec.offboard) _ _ (λ _. attempted-Honest _ _ _)
        λ _.
          Yields-if _ (is_enabled ns_spec.enabled) _ _ (λ _. attempted-Honest _ _ _)
            λ _. Yields-pure _ _ (refl, refl)

  -- The progress reports the entries after those that it started with.
  abbrev Reports : Progress → List NamespaceSpec → Progress → Type 0
  Reports start namespaces p =
      (status_names p.namespaces ≡ status_names start.namespaces ++ entry_names namespaces)
      × Coherent p

  entries-Reports :
      (namespaces : List NamespaceSpec) (start : Progress)
      → Coherent start
      → Yields
          (λ s. Unit {0})
          (Reports start namespaces)
          (reconcile_entries bytes_of cleanup reconcile namespaces start)
  unfolding reconcile_entries
  entries-Reports [] start c = Yields-pure _ start (sym (append_nil _), c)
  entries-Reports (ns_spec ∷ namespaces) start c =
      Yields-then (Honest ns_spec.name) _ _ _ (entry-Honest ns_spec) λ report h.
        Yields-weaken (Reports (note start report) namespaces) _ _
          (λ p (names, coherent). (
            names
                ∙ (ap (λ ns. ns ++ entry_names namespaces) (note-names start report)
                    ∙ (append-snoc _ report.status.name _
                        ∙ ap (λ n. status_names start.namespaces ++ n ∷ entry_names namespaces)
                            h.0)),
            coherent,
          ))
          (entries-Reports namespaces (note start report)
            (note-Coherent ns_spec.name start report h c))

  -- Where the loop over the entries returns, it has one status for each entry, in their order;
  -- `allReady` says that each of them is ready, and that there is no first error.
  pub reconcile_entries-Coherent :
      (namespaces : List NamespaceSpec) (s : S) (p : Progress)
      → (reconcile_entries bytes_of cleanup reconcile namespaces no_progress s).0 ≡ ok p
      → (status_names p.namespaces ≡ entry_names namespaces) × Coherent p
  reconcile_entries-Coherent namespaces s p e =
      (entries-Reports namespaces no_progress (refl, refl)).result s tt p e
