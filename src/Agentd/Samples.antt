-- ===== src/Agentd/Samples.antt =====
-- internal/agentd: calls to an agent on a small file system.
use virmux.Prelude.{
  ◌==◌, if◌then◌else◌, Result, ok, err, All, pos, negsuc, elem, ℕ, String, ◌≡◌, refl, ◌≢◌, true,
  false, ◌&&◌, none, some, List, [], ◌∷◌, ◌++◌, arith, str_eq, is_blank, split_slash,
}
use virmux.Transport.Frame.{Bytes}
use virmux.Agentd.Guard.{
  regular, directory, symlink, Stat, missing, found, path_denied, symlink_component,
  guard_data_path, guard_data_path_with_root, clean, under_data,
}
use virmux.Agentd.Guard.Cleaned.{IsPlain}
use virmux.Agentd.Guard.Confined.{NoLink, guard_confines}
use virmux.Agentd.Tools.{
  Response, ShellEnd, FetchEnd, Os, Call, read_file, handle, err_resp, denied, message,
}
use virmux.Agentd.Tools.Effects.{Sound, handle-Sound}
use virmux.Agentd.Server.{Request, Served, serve_conn}
use virmux.Agentd.Server.Rounds.{requests_on, all_served, serve_conn_lem, serve_conn_ends}

-- /dev/virmux-data has a file and a link.
abbrev entry : String → Stat
entry name =
    if str_eq name "notes"
    then found regular
    else if str_eq name "link"
    then found symlink
    else missing

abbrev tree : List String → Stat
tree [] = found directory
tree (a ∷ []) = if str_eq a "dev" then found directory else missing
tree (a ∷ b ∷ []) = if str_eq a "dev" && str_eq b "virmux-data" then found directory else missing
tree (a ∷ b ∷ c ∷ []) = if str_eq a "dev" && str_eq b "virmux-data" then entry c else missing
tree (a ∷ b ∷ c ∷ d ∷ rest) = missing

tree-absent :
    (cur : List String) (part : String) → tree cur ≡ missing → tree (cur ++ part ∷ []) ≡ missing
tree-absent [] part h = absurd (cc h)
tree-absent (a ∷ []) part h = ground (arith, h)
tree-absent (a ∷ b ∷ []) part h = ground (arith, h)
tree-absent (a ∷ b ∷ c ∷ []) part h = refl
tree-absent (a ∷ b ∷ c ∷ d ∷ rest) part h = refl

program : Unit {0}
unfolding guard_data_path clean is_blank split_slash
program = tt

reads_notes :
    guard_data_path tree "/data//x/../notes" false ≡ ok ("dev" ∷ "virmux-data" ∷ "notes" ∷ [])
unfolding program
reads_notes = refl

denies_escape : guard_data_path tree "/data/../etc" true ≡ err (path_denied ("etc" ∷ []))
unfolding program
denies_escape = refl

denies_link :
    guard_data_path tree "link/x" true
    ≡ err (symlink_component ("dev" ∷ "virmux-data" ∷ "link" ∷ []))
unfolding program
denies_link = refl

guard_confines_example :
    (rest : List String) × (under_data "notes" ≡ "data" ∷ rest)
    × (◌≡◌ {A = List String}
        ("dev" ∷ "virmux-data" ∷ "notes" ∷ [])
        ((clean "/dev/virmux-data").parts ++ rest))
    × All IsPlain rest
    × (tree (clean "/dev/virmux-data").parts ≢ found symlink)
    × NoLink tree tree-absent (clean "/dev/virmux-data").parts rest
guard_confines_example =
    guard_confines tree tree-absent "notes" "/dev/virmux-data" false
      (unfold program guard_data_path_with_root in refl)

abbrev a_shell_end : ShellEnd
a_shell_end = record { stdout = ""; stderr = ""; dur_ms = pos 1; failure = none }

abbrev a_fetch_end : FetchEnd
a_fetch_end = record { dur_ms = pos 1; reply = ok (pos 200, "") }

-- The arguments of a file tool are the path alone.
abbrev machine : Os
machine = record {
  lstat = tree;
  shell = λ a. a_shell_end;
  read = λ p. ok "text";
  make = λ p. none;
  write = λ p b m. none;
  new_request = λ a. none;
  send = λ a. a_fetch_end;
  sha256 = λ b. "sha256:0";
  shell_args = λ s. err "no arguments";
  read_args = λ s. ok (record { path = s });
  write_args = λ s. ok (record { path = s; bytes = "new"; mode = pos 0 });
  fetch_args = λ s. err "no arguments";
}

abbrev read_call : Call
read_call = record { req_id = pos 5; tool = "fs.read"; args = "notes"; allow = "fs.read" ∷ [] }

reads : (handle machine read_call).0 ≡ read_file ("dev" ∷ "virmux-data" ∷ "notes" ∷ []) ∷ []
unfolding program handle
reads = refl

refuses :
    handle machine (record read_call { allow = "shell.exec" ∷ [] })
    ≡ ([], err_resp (pos 5) denied (message "tool not allowlisted"))
unfolding handle
refuses = refl

handle-Sound_example :
    Sound machine tree-absent read_call (handle machine read_call)
    × (elem "fs.read" ("fs.read" ∷ []) ≡ false → (handle machine read_call).0 ≡ [])
handle-Sound_example = handle-Sound machine tree-absent read_call

abbrev request : ℕ → Request
request n = record {
  req_id = pos n;
  tool = "fs.read";
  args = if n == 1 then "notes" else "link";
  allow = "fs.read" ∷ [];
  run_id = "";
}

-- One byte, the request ID.
abbrev to_bytes : Request → Bytes
to_bytes r = elim r.req_id [ pos n ↦ n ∷ [] | negsuc n ↦ [] ]

abbrev to_request : Bytes → Result String Request
to_request [] = err "no byte"
to_request (n ∷ s) = ok (request n)

abbrev to_reply : Response → Bytes
to_reply r = 123 ∷ 125 ∷ []

serve_conn_lem_example :
    serve_conn machine to_request
      (λ r. ok (to_reply r))
      (λ i. none)
      (requests_on machine to_request
        (λ r. ok (to_reply r))
        (λ i. none)
        to_bytes
        to_reply
        (request 1 ∷ request 2 ∷ []))
    ≡ some (
        all_served machine to_request
          (λ r. ok (to_reply r))
          (λ i. none)
          to_bytes
          to_reply
          (request 1 ∷ request 2 ∷ []))
serve_conn_lem_example =
    serve_conn_lem machine to_request (λ r. ok (to_reply r)) (λ i. none) to_bytes to_reply
      (request 1 ∷ request 2 ∷ []) (λ j. refl)
      ((omega arith, refl, refl, omega arith), ((omega arith, refl, refl, omega arith), tt))

serve_conn_ends_example :
    (r : Served) × (serve_conn machine to_request (λ r. ok (to_reply r)) (λ i. none) (7 ∷ 0 ∷ [])
      ≡ some r)
serve_conn_ends_example =
    serve_conn_ends machine to_request (λ r. ok (to_reply r)) (λ i. none) (7 ∷ 0 ∷ [])
