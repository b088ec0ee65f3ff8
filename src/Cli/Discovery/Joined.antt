-- ===== src/Cli/Discovery/Joined.antt =====
-- A process that joins a governor, from the files to the check of its token.
use mathlib.Core.List.{mem-cons}
use mathlib.Core.Logic.Or
use mathlib.Core.Path.{subst}
use nanny.Prelude.{
  ℕ, String, ◌≡◌, refl, sym, ap, ◌∙◌, Bool, true, false, not, Option, some, List, [], ◌∷◌, Result,
  ok, err, map, arith, eq_iff, ◌==◌, string_eq, if◌then◌else◌, select, All, trim, trim_idempotent,
  text_lines, is_empty, Bool-cases, inl, inr,
}
use nanny.Prelude.Dict.{get-insert}
use nanny.Prelude.Exec.{After, continue, raise_if, or_raise, pure, raise, ◌>>=◌}
use nanny.Cli.Folder.{
  Folder, Access, IoError, whole, find, stored_text, create_dir_all, read, write, restrict,
}
use nanny.Cli.Folder.Laws.{
  Holds, Keeps-find, Keeps-write, Keeps-Holds-restrict, Holds-put, read-returns,
}
use nanny.Config.Tokens.{AreTokens-kept_lines, resolve_session_token, resolve_session_token_iff}
use nanny.Network.Auth.{session_token_ok}
use nanny.Network.Auth.Compare.{session_token_ok_iff}
use nanny.Network.Bind.{SocketAddr}
use nanny.Cli.Discovery.{
  left_by, only_reported, mode_of, put_secret, write_secret_file, with_files, publish, local_addr,
  on_addr, on_token, connect_with, detect_joined_server,
}

pub left_by-After :
    (P : Folder → Type 0) (r : Folder × Result IoError (Unit {0}))
    → After (λ _. P) P r
    → P (left_by r)
left_by-After P (s, ok u) h = h
left_by-After P (s, err e) h = h

module _ (access : Access) (a text : String) where
  -- Writing another file leaves the text.
  Holds-write :
      (name other : String) (folder : Folder)
      → (name == a) ≡ false
      → Holds a text folder
      → Holds a text (left_by (write access only_reported name other folder))
  Holds-write name other folder h k =
      left_by-After (Holds a text) (write access only_reported name other folder) (
        (Keeps-find a (λ f. stored_text f ≡ some text) (write access only_reported name other)
            (λ o. Keeps-write access only_reported a o name other h)).at
          folder k)

  Holds-put_secret :
      (name other : String) (folder : Folder)
      → (if name == a then some other else some text) ≡ some text
      → Holds a text folder
      → Holds a text (put_secret name other folder)
  Holds-put_secret name other folder h k = ground (
    arith,
    h,
    k,
    eq_iff name a,
    get-insert name a (record { text = other; owner_only = mode_of (find name folder) })
        folder.files,
  )

module _ (access : Access) where
  -- Which operations of a start succeed: the pid's file may fail, and so may setting the mode.
  abbrev pub CanPublish : Type 0
  CanPublish =
      (access.creates ≡ true)
      × (access.writes "server.addr" ≡ whole)
      × (access.writes "server.token" ≡ whole)

  write-Holds_whole :
      (a text : String) (folder : Folder)
      → access.writes a ≡ whole
      → Holds a text (left_by (write access only_reported a text folder))
  unfolding write
  write-Holds_whole a text folder e = rw e (Holds-put access only_reported a text folder)

  restricted :
      (a text name : String) (folder : Folder)
      → Holds a text folder
      → Holds a text (left_by (restrict access only_reported name folder))
  restricted a text name folder h =
      left_by-After (Holds a text) (restrict access only_reported name folder)
        ((Keeps-Holds-restrict access only_reported name a text).at folder h)

  secret-Holds :
      (token : String) (folder : Folder)
      → access.writes "server.token" ≡ whole
      → Holds "server.token" token (left_by (write_secret_file access "server.token" token folder))
  unfolding write_secret_file
  secret-Holds token folder e = rw e (
      restricted "server.token" token "server.token" (put_secret "server.token" token folder) (
        ap stored_text (
          get-insert "server.token" "server.token"
            (record { text = token; owner_only = mode_of (find "server.token" folder) })
            folder.files)))

  secret-addr :
      (addr token : String) (folder : Folder)
      → access.writes "server.token" ≡ whole
      → Holds "server.addr" addr folder
      → Holds "server.addr" addr (left_by (write_secret_file access "server.token" token folder))
  unfolding write_secret_file
  secret-addr addr token folder e h = rw e (
      restricted "server.addr" addr "server.token" (put_secret "server.token" token folder)
        (Holds-put_secret access "server.addr" addr "server.token" token folder refl h))

  pub publish-Holds :
      (addr token pid : String) (folder : Folder)
      → CanPublish
      → Holds "server.addr" addr (publish access addr token pid folder)
        × Holds "server.token" token (publish access addr token pid folder)
  unfolding publish create_dir_all
  publish-Holds addr token pid folder (c, w, v) =
      let there : Folder = record folder { is_there = true } in
      let addressed = left_by (write access only_reported "server.addr" addr there) in
      let secret = left_by (write_secret_file access "server.token" token addressed) in
      let created : create_dir_all access only_reported folder ≡ (there, ok tt) =
        ground (arith, c) in
      subst
        (λ r.
          Holds "server.addr" addr (with_files access addr token pid r)
          × Holds "server.token" token (with_files access addr token pid r))
        (sym created)
        (
          Holds-write access "server.addr" addr "server.pid" pid secret refl
              (secret-addr addr token addressed v (write-Holds_whole "server.addr" addr there w)),
          Holds-write access "server.token" token "server.pid" pid secret refl
              (secret-Holds token addressed v),
        )

-- A text that is trimmed, and not empty.
abbrev pub IsTrimmed : String → Type 0
IsTrimmed s = (trim s ≡ s) × (is_empty s ≡ false)

select-IsTrimmed :
    (lines : List String) → All IsTrimmed (select (λ line. not (is_empty line)) (map trim lines))
select-IsTrimmed [] = tt
select-IsTrimmed (line ∷ lines) = elim (Bool-cases (is_empty (trim line))) [
  | inl e ↦ rw e (select-IsTrimmed lines)
  | inr e ↦ rw e ((trim_idempotent line, e), select-IsTrimmed lines)
]

module _ (parse_addr : String → Option SocketAddr) (reaches : SocketAddr → Bool)
    (access : Access) where
  connect_with-returns :
      (addr token : String) (socket : SocketAddr) (folder : Folder)
      → is_empty addr ≡ false
      → is_empty token ≡ false
      → parse_addr (local_addr addr) ≡ some socket
      → reaches socket ≡ true
      → connect_with parse_addr reaches access addr token folder
        ≡ (folder, ok (record { addr = local_addr addr; token = token }))
  unfolding connect_with raise_if or_raise pure raise
  connect_with-returns addr token socket folder a t p r = rw (a, t, p, r, raise_if) refl

  detect-returns :
      (addr token : String) (socket : SocketAddr) (folder : Folder)
      → access.reads "server.addr" ≡ true
      → access.reads "server.token" ≡ true
      → IsTrimmed addr
      → IsTrimmed token
      → Holds "server.addr" addr folder
      → Holds "server.token" token folder
      → parse_addr (local_addr addr) ≡ some socket
      → reaches socket ≡ true
      → detect_joined_server parse_addr reaches access folder
        ≡ (folder, ok (record { addr = local_addr addr; token = token }))
  unfolding detect_joined_server
  detect-returns addr token socket folder r s (ta, ea) (tb, eb) h k p c =
      ap
        (continue λ a. read access on_token "server.token" >>= λ t.
          connect_with parse_addr reaches access (trim a) (trim t))
        (read-returns access on_addr "server.addr" addr folder r h)
      ∙ ap (continue λ t. connect_with parse_addr reaches access (trim addr) (trim t))
          (read-returns access on_token "server.token" token folder s k)
      ∙ rw (ta, tb) (connect_with-returns addr token socket folder ea eb p c)

-- If a governor takes its tokens from a configured value and its files are written, a process that then
-- reads them on the same machine, and reaches the address in them, gets that address, with 127.0.0.1
-- for 0.0.0.0, and the first of the tokens, as it was configured. The governor accepts this token.
pub detect_joined_server-publish :
    (parse_addr : String → Option SocketAddr) (reaches : SocketAddr → Bool)
    (as_bytes : String → List ℕ) (governor joiner : Access) (raw first : String)
    (rest : List String) (addr pid : String) (socket : SocketAddr) (folder : Folder)
    → resolve_session_token (some raw) ≡ ok (some (first ∷ rest))
    → CanPublish governor
    → joiner.reads "server.addr" ≡ true
    → joiner.reads "server.token" ≡ true
    → IsTrimmed addr
    → parse_addr (local_addr addr) ≡ some socket
    → reaches socket ≡ true
    → (detect_joined_server parse_addr reaches joiner (publish governor addr first pid folder) ≡ (
      publish governor addr first pid folder,
      ok (record { addr = local_addr addr; token = first }),
    ))
      × (session_token_ok (some (as_bytes first)) (map as_bytes (first ∷ rest)) ≡ true)
detect_joined_server-publish parse_addr reaches as_bytes governor joiner raw first rest addr pid
      socket folder resolved can r s trimmed p c =
    let (raw', same, is_tokens, k, long) =
      (resolve_session_token_iff (some raw) (first ∷ rest)).0 resolved in
    let (is_trimmed, others) =
      subst (All IsTrimmed) (AreTokens-kept_lines (text_lines raw') (first ∷ rest) is_tokens)
        (select-IsTrimmed (text_lines raw')) in
    let (has_addr, has_token) = publish-Holds governor addr first pid folder can in
    (
      detect-returns parse_addr reaches joiner addr first socket
          (publish governor addr first pid folder) r s trimmed is_trimmed has_addr has_token p c,
      (session_token_ok_iff (some (as_bytes first)) (map as_bytes (first ∷ rest))).1
          (as_bytes first, refl, mem-cons.1 (Or.inl refl)),
    )
