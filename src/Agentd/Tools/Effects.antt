-- ===== src/Agentd/Tools/Effects.antt =====
-- internal/agentd/tools/tools.go: what a call may do, and what it answers.
use virmux.Prelude.{
  ok, All, ℤ, elem, String, ◌≡◌, refl, ◌≢◌, ◌↔◌, Bool, true, false, not, none, some, List, [], ◌∷◌,
  ◌++◌, str_eq, eq_iff, if_ind, is_blank, result_ind, option_ind,
}
use virmux.Agentd.Guard.{missing, found, symlink, guard_data_path}
use virmux.Agentd.Guard.Cleaned.{IsPlain}
use virmux.Agentd.Guard.Confined.{NoLink, guard_data_path-lem}
use virmux.Agentd.Tools.{
  ErrorCode, denied, internal, crash, Message, message, guard_message, ToolError, Response,
  SystemCall, run_shell, read_file, make_dirs, write_file, fetch, ShellEnd, FetchEnd, Os, Call,
  err_resp, default_mode, dir, shell_response, shell_runner, read_at, fs_read_runner, write_at,
  fs_write_runner, fetch_response, http_runner, run_tool, handle,
}

-- A response to request `id` that has an error exactly where it is not OK, and then the same ID in
-- the error.
abbrev pub Answers : ℤ → Response → Type 0
Answers id r =
    (r.req_id ≡ id)
    × ((r.is_ok ≡ true) ↔ (r.error ≡ none))
    × ((e : ToolError) → r.error ≡ some e → e.req_id ≡ id)

err_resp-Answers : (id : ℤ) (code : ErrorCode) (msg : Message) → Answers id (err_resp id code msg)
err_resp-Answers id code msg = (refl, (λ h. absurd (cc h), λ h. absurd (cc h)), λ e h. cc)

-- What a call may do that is made to `os`.
module _ (os : Os)
    (absent : (cur : List String) (part : String)
      → os.lstat cur ≡ missing
      → os.lstat (cur ++ part ∷ []) ≡ missing)
    (c : Call) where
  -- Behind the host root, which is no symbolic link, with no ".." on the way and no symbolic link.
  abbrev pub Confined : List String → Type 0
  Confined p =
      (rest : List String) × (p ≡ "dev" ∷ "virmux-data" ∷ rest)
      × (os.lstat ("dev" ∷ "virmux-data" ∷ []) ≢ found symlink)
      × All IsPlain rest
      × NoLink os.lstat absent ("dev" ∷ "virmux-data" ∷ []) rest

  abbrev pub Permitted : SystemCall → Type 0
  Permitted (run_shell a) = c.tool ≡ "shell.exec"
  Permitted (read_file p) = (c.tool ≡ "fs.read") × Confined p
  Permitted (make_dirs d) = (c.tool ≡ "fs.write") × ((p : List String) × (d ≡ dir p) × Confined p)
  Permitted (write_file p bytes mode) = (c.tool ≡ "fs.write") × Confined p
  Permitted (fetch a) = c.tool ≡ "http.fetch"

  abbrev pub Sound : List SystemCall × Response → Type 0
  Sound (calls, r) = All Permitted calls × Answers c.req_id r

  refused : (code : ErrorCode) (msg : Message) → Sound ([], err_resp c.req_id code msg)
  refused code msg = (tt, err_resp-Answers c.req_id code msg)

  shell_response-Answers : (e : ShellEnd) → Answers c.req_id (shell_response os c.req_id e)
  unfolding shell_response
  shell_response-Answers e =
      option_ind (Answers c.req_id) e.failure
        (λ h. (refl, (λ q. refl, λ q. refl), λ x q. absurd (cc q)))
        (λ f h. (refl, (λ q. absurd (cc q), λ q. absurd (cc q)), λ x q. cc))

  fetch_response-Answers : (e : FetchEnd) → Answers c.req_id (fetch_response os c.req_id e)
  unfolding fetch_response
  fetch_response-Answers e =
      result_ind (Answers c.req_id) e.reply
        (λ f h. (refl, (λ q. absurd (cc q), λ q. absurd (cc q)), λ x q. cc))
        (λ b h. (refl, (λ q. refl, λ q. refl), λ x q. absurd (cc q)))

  shell_runner-Sound : c.tool ≡ "shell.exec" → Sound (shell_runner os c)
  unfolding shell_runner
  shell_runner-Sound named =
      result_ind Sound (os.shell_args c.args) (λ e h. refused internal (message e))
        (λ a h.
          if_ind Sound (is_blank a.cmd) (λ b. refused denied (message "empty cmd"))
            (λ b. ((named, tt), shell_response-Answers _)))

  path-Confined :
      (p : String) (allow : Bool) {host : List String}
      → guard_data_path os.lstat p allow ≡ ok host
      → Confined host
  path-Confined p allow {host = host} h =
      guard_data_path-lem os.lstat absent p allow {host = host} h

  fs_read_runner-Sound : c.tool ≡ "fs.read" → Sound (fs_read_runner os c)
  unfolding fs_read_runner read_at
  fs_read_runner-Sound named =
      result_ind Sound (os.read_args c.args) (λ e h. refused internal (message e))
        (λ a h.
          result_ind Sound (guard_data_path os.lstat a.path false)
            (λ e q. refused denied (guard_message e))
            (λ p q.
              let inside : Confined p = path-Confined a.path false q in
              result_ind Sound (os.read p)
                (λ e r. (((named, inside), tt), err_resp-Answers c.req_id crash (message e)))
                (λ b r.
                  (((named, inside), tt), (refl, (λ h. refl, λ h. refl), λ x h. absurd (cc h))))))

  fs_write_runner-Sound : c.tool ≡ "fs.write" → Sound (fs_write_runner os c)
  unfolding fs_write_runner write_at
  fs_write_runner-Sound named =
      result_ind Sound (os.write_args c.args) (λ e h. refused internal (message e))
        (λ a h.
          result_ind Sound (guard_data_path os.lstat a.path true)
            (λ e q. refused denied (guard_message e))
            (λ p q.
              let inside : Confined p = path-Confined a.path true q in
              let makes : Permitted (make_dirs (dir p)) = (named, (p, refl, inside)) in
              option_ind Sound (os.make (dir p))
                (λ r.
                  option_ind Sound (os.write p a.bytes (default_mode a.mode))
                    (λ w. (
                      (makes, ((named, inside), tt)),
                      (refl, (λ h. refl, λ h. refl), λ x h. absurd (cc h)),
                    ))
                    (λ e w. (
                      (makes, ((named, inside), tt)),
                      err_resp-Answers c.req_id crash (message e),
                    )))
                (λ e r. ((makes, tt), err_resp-Answers c.req_id crash (message e)))))

  http_runner-Sound : c.tool ≡ "http.fetch" → Sound (http_runner os c)
  unfolding http_runner
  http_runner-Sound named =
      result_ind Sound (os.fetch_args c.args) (λ e h. refused internal (message e))
        (λ a h.
          option_ind Sound (os.new_request _) (λ r. ((named, tt), fetch_response-Answers _))
            (λ e r. refused crash (message e)))

  -- If what is below a missing path is missing too, `Handle` makes the system calls of the named tool
  -- alone, and none unless the tool is allowed; it reads and writes only files behind the host root,
  -- on paths with no ".." and no symbolic link, the host root included, and makes only the directories above such a file. The
  -- response has the request's ID, and an error exactly where it is not OK.
  pub handle-Sound : Sound (handle os c) × (elem c.tool c.allow ≡ false → (handle os c).0 ≡ [])
  unfolding handle run_tool
  handle-Sound = (
    if_ind Sound (not (elem c.tool c.allow)) (λ h. refused denied (message "tool not allowlisted"))
        (λ h.
          if_ind Sound (str_eq c.tool "shell.exec")
            (λ e. shell_runner-Sound ((eq_iff c.tool "shell.exec").0 e))
            (λ n.
              if_ind Sound (str_eq c.tool "fs.read")
                (λ e. fs_read_runner-Sound ((eq_iff c.tool "fs.read").0 e))
                (λ n2.
                  if_ind Sound (str_eq c.tool "fs.write")
                    (λ e. fs_write_runner-Sound ((eq_iff c.tool "fs.write").0 e))
                    (λ n3.
                      if_ind Sound (str_eq c.tool "http.fetch")
                        (λ e. http_runner-Sound ((eq_iff c.tool "http.fetch").0 e))
                        (λ n4. refused denied (message "unknown tool")))))),
    λ out. rw out refl,
  )
