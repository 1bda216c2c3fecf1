-- ===== src/Executor/Call/Allowed.antt =====
-- What stands before the call of a step's tool in `execute_step`.
use konf.Shared.{
  ℕ, ◌≡◌, refl, sym, subst, inl, inr, Option, none, some, List, map, Text, Json, object, Table, In,
  here, there, In-map_inv, In-append_inv, arith, Result, ok, err, ok_or, ◌>>=◌,
}
use konf.Capability.{not_found, from_patterns, check_access, check_tool_access, validate_grant}
use konf.Capability.Attenuate.{Delegates, root, check_access-Delegates, validate_grant-Delegates}
use konf.Envelope.{Envelope, for_tool_dispatch}
use konf.Engine.{EngineConfig}
use konf.Workflow.{Step}
use konf.Template.{resolve_inputs}
use konf.Executor.{KonfluxError, tool, State}
use konf.Executor.Retry.{RetryEvent, invoked, Surroundings, invoke_with_retry}
use konf.Executor.Call.{
  CallWorld, node_started, attempted, map_err, collect, resolved, inputs_failed, tool_in_registry,
  tool_capabilities, too_wide, step_envelope, prepared, reported, call, execute_step,
}

map_err-ok {ℓ} :
    {A E F : Type ℓ} (f : E → F) (r : Result A E) {a : A} → map_err f r ≡ ok a → r ≡ ok a
map_err-ok f (ok b) h = cc h
map_err-ok f (err e) h = cc h

ok_or-ok {ℓ κ} :
    {A : Type ℓ} {E : Type κ} (o : Option A) (e : E) {a : A} → ok_or o e ≡ ok a → o ≡ some a
ok_or-ok none e h = cc h
ok_or-ok (some b) e h = cc h

attempted-ne : {e : RetryEvent} {id name : Text} → attempted e ≡ node_started id name → ⊥
attempted-ne h = cc h

attempted-inj : {d e : RetryEvent} → attempted d ≡ attempted e → d ≡ e
attempted-inj h = cc h

-- Four results in sequence that come to a value.
sequence-ok :
    {A C D X E : Type 0} (r : Result A E) (s : Result (Unit {0}) E) (t : Result C E)
    (u : Result D E) (f : A → C → D → X) {x : X}
    → (r >>= λ a. s >>= λ _. t >>= λ c. u >>= λ d. ok (f a c d)) ≡ ok x
    → (a : A) × (c : C) × (d : D) × (r ≡ ok a)
      × (s ≡ ok tt)
      × (t ≡ ok c)
      × (u ≡ ok d)
      × (f a c d ≡ x)
sequence-ok (err e) s t u f h = cc h
sequence-ok (ok a) (err e) t u f h = cc h
sequence-ok (ok a) (ok tt) (err e) u f h = cc h
sequence-ok (ok a) (ok tt) (ok c) (err e) f h = cc h
sequence-ok (ok a) (ok tt) (ok c) (ok d) f h = (a, c, d, refl, refl, refl, refl, cc h)

module _ (config : EngineConfig) (capabilities : List Text) (metadata : Table Json)
    (workflow_id : Text) (world : CallWorld) (step : Step) where
  -- What holds of the callee and the envelope of a call.
  pub record Allowed (state : State) (callee : Surroundings) (env : Envelope Json) : Type 0 where
    pub granted : check_tool_access step.tool capabilities ≡ ok tt
    pub registered : world.registry step.tool ≡ some callee
    pub addressed : env.target ≡ step.tool
    pub narrowed :
        (name : Text)
        → check_access env.capabilities name ≡ ok tt
        → check_access (from_patterns capabilities) name ≡ ok tt
    pub inputs : Table Json
    pub inputs_resolved : resolve_inputs world.render state.outputs step.input ≡ ok inputs
    pub inputs_sent : env.payload ≡ object (collect inputs)

  -- The capabilities of a call are those of the execution, or a grant that they cover.
  tool_capabilities-Delegates :
      (o : Option (List Text)) (pats : List Text)
      → tool_capabilities config capabilities metadata workflow_id world step o ≡ ok pats
      → Delegates (from_patterns capabilities) (from_patterns pats)
  unfolding tool_capabilities
  tool_capabilities-Delegates none pats h = root (ground arith)
  tool_capabilities-Delegates (some grant) pats h =
      granted (validate_grant grant capabilities) refl h
    where
      granted :
          (r : Result (Unit {0}) Text)
          → validate_grant grant capabilities ≡ r
          → (map_err (too_wide config capabilities metadata workflow_id world step) r >>= λ _.
              ok grant)
            ≡ ok pats
          → Delegates (from_patterns capabilities) (from_patterns pats)
      granted (err e) valid same = cc same
      granted (ok tt) valid same =
          subst (λ z. Delegates (from_patterns capabilities) (from_patterns z)) (cc same)
            (validate_grant-Delegates grant capabilities valid)

  prepared-Allowed :
      (state : State) (callee : Surroundings) (env : Envelope Json)
      → prepared config capabilities metadata workflow_id world step state ≡ ok (callee, env)
      → Allowed state callee env
  unfolding prepared resolved tool_in_registry step_envelope for_tool_dispatch
  prepared-Allowed state callee env h =
      let (inputs, found, pats, e, access, here_is, covered, same) =
        sequence-ok (resolved config capabilities metadata workflow_id world step state)
          (map_err tool (check_tool_access step.tool capabilities))
          (tool_in_registry config capabilities metadata workflow_id world step)
          (tool_capabilities config capabilities metadata workflow_id world step step.grant)
          (λ inputs callee pats.
            (callee, step_envelope config capabilities metadata workflow_id world step inputs pats))
          h in
      subst (λ (p : Surroundings × Envelope Json). Allowed state p.0 p.1) same
        (record {
          granted = map_err-ok tool (check_tool_access step.tool capabilities) access;
          registered = ok_or-ok (world.registry step.tool) (tool (not_found step.tool)) here_is;
          addressed = refl;
          narrowed = λ name k.
              check_access-Delegates name (tool_capabilities-Delegates step.grant pats covered) k;
          inputs = inputs;
          inputs_resolved =
              map_err-ok (inputs_failed config capabilities metadata workflow_id world step)
                (resolve_inputs world.render state.outputs step.input) e;
          inputs_sent = refl;
        })

  attempted-reported :
      (r : Option (Result (Envelope Json) KonfluxError)) (e : RetryEvent)
      → In (attempted e) (reported config capabilities metadata workflow_id world step r)
      → ⊥
  attempted-reported none e i = elim i [ ]
  attempted-reported (some (ok output)) e (here q) = cc q
  attempted-reported (some (ok output)) e (there i) = elim i [ ]
  attempted-reported (some (err problem)) e (here q) = cc q
  attempted-reported (some (err problem)) e (there i) = elim i [ ]

  -- Where a call calls the tool, it was prepared.
  call-invoked :
      (r : Result (Surroundings × Envelope Json) KonfluxError) (e : RetryEvent)
      → In (attempted e) (call config capabilities metadata workflow_id world step r).1
      → (callee : Surroundings) × (env : Envelope Json) × (r ≡ ok (callee, env))
        × In e (invoke_with_retry config step workflow_id callee env).1
  unfolding call
  call-invoked (err problem) e (here q) = absurd (attempted-ne q)
  call-invoked (err problem) e (there i) = elim i [ ]
  call-invoked (ok (callee, env)) e (here q) = absurd (attempted-ne q)
  call-invoked (ok (callee, env)) e (there i) =
      let (r, es) = invoke_with_retry config step workflow_id callee env in
      elim (In-append_inv (map attempted es)
        (reported config capabilities metadata workflow_id world step r) i) [
          | inl k ↦
              let (d, at, same) = In-map_inv attempted es k in
              (callee, env, refl, subst (λ x. In x es) (sym (attempted-inj same)) at)
          | inr k ↦ absurd (attempted-reported r e k)
        ]

  -- Where `execute_step` calls the tool of a step, the capabilities of the execution allow the
  -- tool, the registry has it, and the inputs of the step have been resolved and are sent to it.
  -- What the capabilities that are sent with them allow, the capabilities of the execution allow.
  -- The call is one of those that `invoke_with_retry` makes.
  pub execute_step-Allowed :
      (state : State) (attempt duration : ℕ)
      → In
          (attempted (invoked attempt duration))
          (execute_step config capabilities metadata workflow_id world step state).1
      → (callee : Surroundings) × (env : Envelope Json) × Allowed state callee env
        × In (invoked attempt duration) (invoke_with_retry config step workflow_id callee env).1
  unfolding execute_step
  execute_step-Allowed state attempt duration i =
      let (callee, env, e, j) =
        call-invoked (prepared config capabilities metadata workflow_id world step state)
          (invoked attempt duration) i in
      (callee, env, prepared-Allowed state callee env e, j)
