-- ===== src/Wrapping/Scoped.antt =====
-- `Runtime::build_scoped_engine`: where the tools of a scoped engine come from.
use konf.Shared.{
  ◌≡◌, refl, subst, inl, inr, Option, none, some, [], ◌∷◌, arith, Bool-cases, Text, text_eq,
  text_eq_iff, Table, Json, lookup, insert, lookup-insert, In, here, there, Result, ok, err,
}
use konf.Guard.{Tool}
use konf.Scope.{ExecutionScope, RuntimeError, check_tool}
use konf.Wrapping.{
  ToolGuardEntry, wrap, alias_of, register_granted, register_alias, register_aliased, register_as,
  register_tool, register_all, build_scoped_engine,
}

-- Where the tool `t` that an engine has under the name `n` comes from: it is a tool of the registry
-- that the scope grants, in its wrapping, or the alias of a tool that the scope grants, as it is.
pub data Source (scope : ExecutionScope) (guards : Table ToolGuardEntry) (registry : Table Tool)
    (n : Text) (t : Tool) : Type 0 where
  granted :
      (bindings : Table Json) (raw : Tool)
      → check_tool scope n ≡ ok bindings
      → In (n, raw) registry
      → t ≡ wrap n guards bindings raw
      → Source scope guards registry n t
  aliased :
      (original : Text) (bindings : Table Json)
      → alias_of (lookup original guards) ≡ some n
      → check_tool scope original ≡ ok bindings
      → lookup n registry ≡ some t
      → Source scope guards registry n t

module _ (scope : ExecutionScope) (guards : Table ToolGuardEntry) (registry : Table Tool) where
  abbrev AllSourced : Table Tool → Type 0
  AllSourced engine =
      (n : Text) (t : Tool) → lookup n engine ≡ some t → Source scope guards registry n t

  AllSourced-insert :
      (k : Text) (v : Tool) (engine : Table Tool)
      → Source scope guards registry k v
      → AllSourced engine
      → AllSourced (insert k v engine)
  AllSourced-insert k v engine s all n t h = elim (Bool-cases (text_eq k n)) [
    | inl e ↦
        let same : v ≡ t = cc (rw (lookup-insert k n v engine, e) at h) in
        subst (λ z. Source scope guards registry z t) ((text_eq_iff k n).0 e)
          (subst (Source scope guards registry k) same s)
    | inr e ↦ all n t (rw (lookup-insert k n v engine, e) at h)
  ]

  register_granted-AllSourced :
      (name : Text) (tool : Tool) (r : Result (Table Json) RuntimeError) (engine : Table Tool)
      → check_tool scope name ≡ r
      → In (name, tool) registry
      → AllSourced engine
      → AllSourced (register_granted name guards tool r engine)
  register_granted-AllSourced name tool (err e) engine h i all = all
  register_granted-AllSourced name tool (ok b) engine h i all =
      AllSourced-insert name (wrap name guards b tool) engine (granted b tool h i refl) all

  register_alias-AllSourced :
      (name alias : Text) (tool : Tool) (r : Result (Table Json) RuntimeError) (engine : Table Tool)
      → alias_of (lookup name guards) ≡ some alias
      → lookup alias registry ≡ some tool
      → check_tool scope name ≡ r
      → AllSourced engine
      → AllSourced (register_alias alias tool r engine)
  register_alias-AllSourced name alias tool (err e) engine a l h all = all
  register_alias-AllSourced name alias tool (ok b) engine a l h all =
      AllSourced-insert alias tool engine (aliased name b a h l) all

  register_aliased-AllSourced :
      (name alias : Text) (tool : Tool) (o : Option Tool) (engine : Table Tool)
      → alias_of (lookup name guards) ≡ some alias
      → lookup alias registry ≡ o
      → In (name, tool) registry
      → AllSourced engine
      → AllSourced (register_aliased name alias guards tool o (check_tool scope name) engine)
  register_aliased-AllSourced name alias tool none engine a l i all =
      register_granted-AllSourced name tool (check_tool scope name) engine refl i all
  register_aliased-AllSourced name alias tool (some other) engine a l i all =
      register_alias-AllSourced name alias other (check_tool scope name) engine a l refl all

  register_as-AllSourced :
      (name : Text) (tool : Tool) (o : Option Text) (engine : Table Tool)
      → alias_of (lookup name guards) ≡ o
      → In (name, tool) registry
      → AllSourced engine
      → AllSourced (register_as scope guards registry name tool o engine)
  register_as-AllSourced name tool none engine a i all =
      register_granted-AllSourced name tool (check_tool scope name) engine refl i all
  register_as-AllSourced name tool (some alias) engine a i all =
      register_aliased-AllSourced name alias tool (lookup alias registry) engine a refl i all

  register_all-AllSourced :
      (tools engine : Table Tool)
      → ((e : Text × Tool) → In e tools → In e registry)
      → AllSourced engine
      → AllSourced (register_all scope guards registry tools engine)
  unfolding register_all register_tool
  register_all-AllSourced [] engine sub all = all
  register_all-AllSourced ((name, tool) ∷ tools) engine sub all =
      register_all-AllSourced tools (register_tool scope guards registry name tool engine)
        (λ e i. sub e (there i))
        (register_as-AllSourced name tool (alias_of (lookup name guards)) engine refl
          (sub (name, tool) (here refl)) all)

  -- Every tool of a scoped engine is a tool of the registry that the scope grants, wrapped in the
  -- bindings of its grant and in its guards, or it is the alias that a guard entry gives for a tool
  -- that the scope grants, without a wrapping.
  pub build_scoped_engine-Source :
      (n : Text) (t : Tool)
      → lookup n (build_scoped_engine scope guards registry) ≡ some t
      → Source scope guards registry n t
  unfolding build_scoped_engine lookup
  build_scoped_engine-Source n t h = register_all-AllSourced registry [] (λ e i. i) nothing n t h
    where
      nothing : AllSourced []
      nothing m u k = absurd (ground arith)
