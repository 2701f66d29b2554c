-- ===== src/Info.antt =====
-- The version of the program (internal/info/version.go). The two variables, which the linker may
-- set, are the fields of Build.
use node_readiness_gate_cont.Prelude.{
  String, List, [], ◌∷◌, ◌++◌, not, ◌==◌, ◌<>◌, if◌then◌else◌, join,
}

pub record Build : Type 0 where
  pub version : String
  pub git_commit : String

-- What they hold if the linker sets nothing.
abbrev pub unset : Build
unset = record { version = "unknown"; git_commit = "" }

unfoldable pub get_version_parts : Build → List String
get_version_parts build =
    let v = build.version ∷ [] in
    if not (build.git_commit == "") then v ++ ("commit: " <> build.git_commit) ∷ [] else v

unfoldable pub get_version_string : Build → List String → String
unfolding get_version_parts
get_version_string build more = join ", " (get_version_parts build ++ more)
