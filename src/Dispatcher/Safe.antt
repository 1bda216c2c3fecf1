-- ===== src/Dispatcher/Safe.antt =====
-- About `Dispatcher::dispatch_tool`: the layers between a caller and a tool.
use konf.Shared.{
  ◌≡◌, refl, sym, ap, ◌∙◌, none, some, Text, Table, Json, Result, lookup, ok, err, is_ok,
}
use konf.Capability.{ToolError}
use konf.Envelope.{Envelope, for_tool_dispatch}
use konf.Guard.{Tool}
use konf.Scope.{RuntimeError, check_tool}
use konf.Scope.Check.{FirstGrant, GrantsTool, check_tool-FirstGrant, check_tool-iff-GrantsTool}
use konf.Wrapping.Layers.{RulesPassed, Called, wrap-ok}
use konf.Dispatcher.{
  Formats, Moment, Dispatcher, Call, Dispatched, dispatch_envelope, payload_of, stop, invoke,
  dispatch_tool,
}
use konf.Dispatcher.Cases.{answer, cached_row, refused, replayed, invoked, dispatch_tool-Course}

payload_of-ok :
    (formats : Formats) (name : Text) (r : Result (Envelope Json) ToolError) (v : Json)
    → payload_of formats name r ≡ ok v
    → (out : Envelope Json) × (r ≡ ok out) × (v ≡ out.payload)
payload_of-ok formats name (ok out) v h = (out, refl, cc h)
payload_of-ok formats name (err e) v h = absurd (cc h)

module _ {S : Type 0} (formats : Formats) (self : Dispatcher S) (moment : Moment)
    (call : Call) where
  -- A call that was let through all the layers, with `v` as its answer.
  pub record LetThrough (v : Json) : Type 0 where
    pub bindings : Table Json
    pub granted : FirstGrant call.scope.capabilities call.tool_name bindings
    pub raw : Tool
    pub registered : lookup call.tool_name call.registry ≡ some raw
    pub passed : RulesPassed call.tool_name (lookup call.tool_name self.tool_guards) call.input
    pub out : Envelope Json
    pub called : Called bindings raw (dispatch_envelope moment call) out
    pub value : v ≡ out.payload

  let_through :
      (bindings : Table Json) (raw : Tool) (s : S) (v : Json)
      → check_tool call.scope call.tool_name ≡ ok bindings
      → lookup call.tool_name call.registry ≡ some raw
      → (invoke formats self moment call bindings
          (answer formats self moment call bindings raw)
          s).result
        ≡ ok v
      → LetThrough v
  unfolding invoke dispatch_envelope for_tool_dispatch
  let_through bindings raw s v g l h =
      let (out_, e, same) =
        payload_of-ok formats call.tool_name (answer formats self moment call bindings raw) v h in
      let (rules, inner) =
        wrap-ok call.tool_name self.tool_guards bindings raw (dispatch_envelope moment call) out_
          e in
      record {
        bindings = bindings;
        granted = check_tool-FirstGrant call.scope call.tool_name bindings g;
        raw = raw;
        registered = l;
        passed = rules;
        out = out_;
        called = inner;
        value = same;
      }

  -- A dispatch that returns a value, and not from the journal, went through every layer: the first
  -- grant that covers the tool gave the bindings, the guard rules let the input through, and the
  -- registered tool answered the envelope with the bindings injected.
  pub dispatch_tool-LetThrough :
      (s : S) (v : Json)
      → cached_row formats self moment call s ≡ none
      → (dispatch_tool formats self moment call s).result ≡ ok v
      → LetThrough v
  dispatch_tool-LetThrough s v fresh h = elim (dispatch_tool-Course formats self moment call s) [
    | refused e r d ↦ absurd (cc (sym (ap (λ (x : Dispatched S). x.result) d) ∙ h))
    | replayed b row g c d ↦ absurd (cc (sym fresh ∙ c))
    | invoked b raw g l soon c d ↦
        let_through b raw s v g l (sym (ap (λ (x : Dispatched S). x.result) d) ∙ h)
  ]

  granted→GrantsTool :
      (b : Table Json)
      → check_tool call.scope call.tool_name ≡ ok b
      → GrantsTool call.scope.capabilities call.tool_name
  granted→GrantsTool b g = (check_tool-iff-GrantsTool call.scope call.tool_name).0 (ap is_ok g)

  -- A dispatch of a tool that no grant of the scope covers fails, writes nothing to the journal,
  -- emits no event, and is not answered from the journal either.
  pub dispatch_tool-denied :
      (s : S)
      → (GrantsTool call.scope.capabilities call.tool_name → ⊥)
      → (e : RuntimeError) × (dispatch_tool formats self moment call s ≡ stop e s)
  dispatch_tool-denied s deny = elim (dispatch_tool-Course formats self moment call s) [
    | refused e r d ↦ (e, d)
    | replayed b row g c d ↦ absurd (deny (granted→GrantsTool b g))
    | invoked b raw g l soon c d ↦ absurd (deny (granted→GrantsTool b g))
  ]
