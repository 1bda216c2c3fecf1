-- ===== src/Dispatcher/Replay.antt =====
-- About `Dispatcher::dispatch_tool` with an idempotency key that was used before.
use konf.Shared.{
  ℕ, Option, ◌≡◌, refl, sym, ap, ◌∙◌, false, none, some, ◌++◌, Text, text, Json, Table, Result,
  lookup, ok,
}
use konf.Capability.{ToolError}
use konf.Envelope.{Envelope}
use konf.Guard.{Tool}
use konf.Scope.{check_tool}
use konf.Journal.{JournalStore, JournalEntry, JournalRow}
use konf.Dispatcher.{
  Formats, Moment, Dispatcher, Call, Dispatched, past_deadline, scoped_key, interaction_of,
  entry_of, cached, append_to, row_found, invoke, dispatch_tool,
}
use konf.Dispatcher.Cases.{
  refused, replayed, invoked, not_granted, not_registered, too_late, dispatch_tool-Course,
}

-- A journal that finds the last entry with a key: once an entry that does not expire is appended to
-- a valid journal, its key is answered with a row that has its payload.
abbrev pub FindsLast : {S : Type 0} → JournalStore S → (S → Type 0) → Type 0
FindsLast {S} journal Valid =
    (entry : JournalEntry) (key : Text) (s : S) (n : ℕ)
    → Valid s
    → entry.valid_to ≡ none
    → entry.idempotency_key ≡ some key
    → (journal.append entry s).1 ≡ ok n
    → (row : JournalRow) × (journal.get_by_idempotency_key key (journal.append entry s).0
        ≡ ok (some row))
      × (row.payload ≡ entry.payload)

abbrev scoped : Text → Text → Text
scoped tool_name key = tool_name ++ (text ":" ++ key)

module _ {S : Type 0} (formats : Formats) (self : Dispatcher S) where
  state_after :
      (journal : JournalStore S) (moment : Moment) (call : Call) (b : Table Json)
      (result : Result (Envelope Json) ToolError) (s : S)
      → self.journal ≡ some journal
      → (invoke formats self moment call b result s).state
        ≡ (journal.append (entry_of formats moment call b result) s).0
  unfolding invoke
  state_after journal moment call b result s j =
      ap
        (λ (o : Option (JournalStore S)).
          (append_to o call.scope.namespace (entry_of formats moment call b result) s).0)
        j

  -- The row that the later dispatch finds.
  row_after :
      (journal : JournalStore S) (moment : Moment) (call again : Call) (b : Table Json)
      (result : Result (Envelope Json) ToolError) (s : S) (n : ℕ) (key : Text) (Valid : S → Type 0)
      → FindsLast journal Valid
      → Valid s
      → self.journal ≡ some journal
      → call.ctx.idempotency_key ≡ some key
      → (journal.append (entry_of formats moment call b result) s).1 ≡ ok n
      → again.tool_name ≡ call.tool_name
      → again.ctx.idempotency_key ≡ some key
      → (row : JournalRow) × (cached self.journal
            (scoped_key again.tool_name again.ctx.idempotency_key)
            (invoke formats self moment call b result s).state
          ≡ some row)
        × (row.payload ≡ formats.interaction_json (interaction_of formats moment call b result))
  unfolding entry_of
  row_after journal moment call again b result s n key Valid law v j k a name k' =
      let entry = entry_of formats moment call b result in
      let (row, found, same) =
        law entry (scoped call.tool_name key) s n v refl (ap (scoped_key call.tool_name) k) a in
      (
        row,
        ap (λ (x : S). cached self.journal (scoped_key again.tool_name again.ctx.idempotency_key) x)
              (state_after journal moment call b result s j)
            ∙ ap
                (λ (x : Text).
                  cached self.journal (scoped_key x again.ctx.idempotency_key)
                    (journal.append entry s).0)
                name
            ∙ ap
                (λ (x : Option Text).
                  cached self.journal (scoped_key call.tool_name x) (journal.append entry s).0)
                k'
            ∙ ap
                (λ (o : Option (JournalStore S)).
                  cached o (some (scoped call.tool_name key)) (journal.append entry s).0)
                j
            ∙ ap row_found found,
        same,
      )

  -- A tool was called with a key and the call was written to the journal. A later dispatch of the
  -- same tool with the same key, in time and under a scope that grants the tool, does not call the
  -- tool, whatever its input and whoever makes it. Its result is the record of the first call, also
  -- if the first call failed, and not the value that the tool returned.
  pub dispatch_tool-repeat :
      (journal : JournalStore S) (first later : Moment) (call again : Call) (s : S)
      (b c : Table Json) (raw : Tool) (result : Result (Envelope Json) ToolError) (n : ℕ)
      (key : Text) (Valid : S → Type 0)
      → FindsLast journal Valid
      → Valid s
      → self.journal ≡ some journal
      → call.ctx.idempotency_key ≡ some key
      → (journal.append (entry_of formats first call b result) s).1 ≡ ok n
      → again.tool_name ≡ call.tool_name
      → again.ctx.idempotency_key ≡ some key
      → check_tool again.scope again.tool_name ≡ ok c
      → lookup again.tool_name again.registry ≡ some raw
      → past_deadline later.now again.ctx.deadline ≡ false
      → let after = (invoke formats self first call b result s).state in
        (dispatch_tool formats self later again after).result
        ≡ ok (formats.interaction_json (interaction_of formats first call b result))
  dispatch_tool-repeat journal first later call again s b c raw result n key Valid law v j k a name
        k' g l soon =
      let after = (invoke formats self first call b result s).state in
      let (row, found, same) =
        row_after journal first call again b result s n key Valid law v j k a name k' in
      elim (dispatch_tool-Course formats self later again after) [
        | refused e (not_granted h) d ↦ absurd (cc (sym g ∙ h))
        | refused e (not_registered h q) d ↦ absurd (cc (sym l ∙ h))
        | refused e (too_late h q) d ↦ absurd (cc (sym soon ∙ h))
        | replayed b' row' g' c' d ↦
            let eq : row ≡ row' = cc (sym found ∙ c') in
            ap (λ (x : Dispatched S). x.result) d
            ∙ ap (λ (r : JournalRow). ok r.payload) (sym eq)
            ∙ ap ok same
        | invoked b' raw' g' l' soon' c' d ↦ absurd (cc (sym found ∙ c'))
      ]
