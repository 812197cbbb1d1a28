-- ===== src/Tools/Authorize.antt =====
-- Authorization: which tools an agent sees, and that no other tool runs.
use interviewer.Prelude.{
  String, eq_iff, ◌≡◌, refl, Bool, true, false, ◌&&◌, ◌||◌, Option, none, some, List, [], ◌∷◌,
  arith, or_else, keep, lookup, contains, contains-add, add,
}
use interviewer.Floats.{Floats}
use interviewer.Values.{Fields, err, tool_permission_error}
use interviewer.Tools.{Host, ToolContext, ToolRegistry, World, call, join, ToolPolicy, authorize}

contains-keep :
    (p : String → Bool) (xs : List String) (s : String)
    → contains (keep p xs) s ≡ (contains xs s && p s)
contains-keep p [] s = refl
contains-keep p (x ∷ xs) s = ground (arith, contains-keep p xs s, eq_iff x s)

contains-join :
    (xs ys : List String) (s : String) → contains (join xs ys) s ≡ (contains xs s || contains ys s)
unfolding join
contains-join xs [] s = ground arith
contains-join xs (y ∷ ys) s = ground (arith, contains-join (add xs y) ys s, contains-add xs y s)

-- Whether a set given or left out has the tool.
abbrev pub admits : Option (List String) → String → Bool
admits none tool = true
admits (some s) tool = contains s tool

-- A tool is visible exactly where the agent's policy allows it, its skill declares it and the
-- session, if it restricts the tools, admits it.
pub contains-authorize :
    (policy : ToolPolicy) (agent : String) (declared : List String) (session : Option (List String))
    (tool : String)
    → contains (authorize policy agent declared session) tool ≡ (
        contains (or_else (lookup policy agent) []) tool
        && contains declared tool
        && admits session tool)
unfolding authorize
contains-authorize policy agent declared none tool =
    let allowed = or_else (lookup policy agent) [] in
    ground (
      arith,
      contains-keep (contains (join allowed declared)) (keep (contains declared) allowed) tool,
      contains-keep (contains declared) allowed tool,
      contains-join allowed declared tool,
    )
contains-authorize policy agent declared (some session) tool =
    let allowed = or_else (lookup policy agent) [] in
    ground (
      arith,
      contains-keep (contains session) (keep (contains declared) allowed) tool,
      contains-keep (contains declared) allowed tool,
    )

module _ ⦃F : Floats⦄ ⦃H : Host⦄ where
  -- A tool that the policy, the skill or the session withholds from the agent does not run: its
  -- call is refused and the world is as before, whether or not the tool is registered.
  pub call-authorize :
      (policy : ToolPolicy) (agent : String) (declared : List String)
      (session : Option (List String)) (tools : ToolRegistry) (tool : String) (args : Fields)
      (context : ToolContext) (w : World)
      → (contains (or_else (lookup policy agent) []) tool
          && contains declared tool
          && admits session tool)
        ≡ false
      → call tools tool args context (authorize policy agent declared session) w
        ≡ (err tool_permission_error, w)
  unfolding call
  call-authorize policy agent declared session tools tool args context w h =
      rw (contains-authorize policy agent declared session tool, h)
