-- ===== src/Wrapping.antt =====
-- How the runtime wraps the tools that a scope may call: `Dispatcher::dispatch_tool` of
-- crates/konf-runtime/src/dispatcher.rs for one tool, `Runtime::build_scoped_engine` of
-- crates/konf-runtime/src/runtime.rs for all tools of a registry. A registry is a table; a tool's
-- own name is its key. The locks are held for the whole of each operation.
pub mod Scoped
pub mod Layers
mod Tests
use konf.Shared.{
  Option, none, some, List, [], ◌∷◌, Text, Table, Json, lookup, insert, Result, ok, err,
}
use konf.Guard.{Rule, DefaultAction, Tool, guarded}
use konf.Context.{virtualized}
use konf.Scope.{ExecutionScope, RuntimeError, check_tool}

pub record ToolGuardEntry : Type 0 where
  pub rules : List Rule
  pub default_action : DefaultAction
  pub alias : Option Text

-- Layer 1: a tool without bindings stays as it is.
abbrev pub with_bindings : Table Json → Tool → Tool
with_bindings [] inner = inner
with_bindings (b ∷ bindings) inner = virtualized (b ∷ bindings) inner

-- Layer 2: an entry without rules adds no guard.
abbrev pub with_rules : Text → List Rule → DefaultAction → Tool → Tool
with_rules name [] default_action inner = inner
with_rules name (r ∷ rules) default_action inner = guarded name (r ∷ rules) default_action inner

abbrev pub with_guards : Text → Option ToolGuardEntry → Tool → Tool
with_guards name none inner = inner
with_guards name (some entry) inner = with_rules name entry.rules entry.default_action inner

unfoldable pub wrap : Text → Table ToolGuardEntry → Table Json → Tool → Tool
wrap name guards bindings raw = with_guards name (lookup name guards) (with_bindings bindings raw)

-- A granted tool is registered with its wrapping, any other is skipped.
abbrev pub register_granted :
    Text → Table ToolGuardEntry → Tool → Result (Table Json) RuntimeError → Table Tool → Table Tool
register_granted name guards tool (err e) engine = engine
register_granted name guards tool (ok bindings) engine =
    insert name (wrap name guards bindings tool) engine

-- An alias that the registry has is registered as it is, under its own name, if the scope grants
-- the tool that it stands for. One that the registry lacks falls back to the tool.
abbrev pub register_alias : Text → Tool → Result (Table Json) RuntimeError → Table Tool → Table Tool
register_alias alias tool (err e) engine = engine
register_alias alias tool (ok bindings) engine = insert alias tool engine

abbrev pub register_aliased :
    (name alias : Text) (guards : Table ToolGuardEntry) (tool : Tool) (alias_tool : Option Tool)
    → Result (Table Json) RuntimeError
    → Table Tool
    → Table Tool
register_aliased name alias guards tool none granted engine =
    register_granted name guards tool granted engine
register_aliased name alias guards tool (some alias_tool) granted engine =
    register_alias alias alias_tool granted engine

abbrev pub alias_of : Option ToolGuardEntry → Option Text
alias_of none = none
alias_of (some entry) = entry.alias

abbrev pub register_as :
    ExecutionScope
    → Table ToolGuardEntry
    → Table Tool
    → Text
    → Tool
    → Option Text
    → Table Tool
    → Table Tool
register_as scope guards registry name tool none engine =
    register_granted name guards tool (check_tool scope name) engine
register_as scope guards registry name tool (some alias) engine =
    register_aliased name alias guards tool (lookup alias registry) (check_tool scope name) engine

unfoldable pub register_tool :
    ExecutionScope → Table ToolGuardEntry → Table Tool → Text → Tool → Table Tool → Table Tool
register_tool scope guards registry name tool engine =
    register_as scope guards registry name tool (alias_of (lookup name guards)) engine

-- The loop of `build_scoped_engine` over the tools of the registry.
unfoldable pub register_all :
    ExecutionScope → Table ToolGuardEntry → (registry tools : Table Tool) → Table Tool → Table Tool
register_all scope guards registry [] engine = engine
register_all scope guards registry ((name, tool) ∷ tools) engine =
    register_all scope guards registry tools (register_tool scope guards registry name tool engine)

unfoldable pub build_scoped_engine :
    ExecutionScope → Table ToolGuardEntry → (registry : Table Tool) → Table Tool
build_scoped_engine scope guards registry = register_all scope guards registry registry []
