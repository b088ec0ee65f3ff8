-- ===== src/Cli/Discovery/Stale.antt =====
-- What a governor that has stopped leaves for the next one, and for those who look for it.
use nanny.Prelude.{
  ℕ, suc, String, trim, ◌≡◌, refl, ap, ◌∙◌, Bool, true, false, Option, none, some, List, [], ◌∷◌,
  err, arith, eq_iff, ◌==◌, string_eq, contains, if◌then◌else◌, Option-cases, inl, inr,
}
use nanny.Prelude.Dict.{is_some, get-remove_key}
use nanny.Prelude.Exec.{continue, ◌>>=◌}
use nanny.Cli.Folder.{Folder, Stored, Access, find, exists, stored_text, remove_file, read, read_as}
use nanny.Cli.Folder.Laws.{Has, Holds, Keeps-find, Keeps-remove_file, read-returns}
use nanny.Network.Bind.{SocketAddr}
use nanny.Cli.Discovery.{
  left_by, only_reported, publish, unpublish, remove_all, discovery_files, remove_discovery_files,
  missing_token, on_addr, on_token, connect_with, detect_joined_server, wait_from,
  wait_for_governor,
}
use nanny.Cli.Discovery.Joined.{CanPublish, left_by-After, publish-Holds}

find-remove_file :
    (access : Access) (name a : String) (folder : Folder)
    → access.removes name ≡ true
    → find a (left_by (remove_file access only_reported name folder))
      ≡ (if name == a then none else find a folder)
unfolding remove_file
find-remove_file access name a folder r = elim (Option-cases (find name folder)) [
  | inl e ↦ rw e (ground (arith, e, eq_iff name a))
  | inr (f, e) ↦ rw (e, r) (get-remove_key name a folder.files)
]

find-remove_all :
    (access : Access) (names : List String) (a : String) (folder : Folder)
    → ((name : String) → access.removes name ≡ true)
    → find a (remove_all access names folder) ≡ (if contains names a then none else find a folder)
unfolding remove_all
find-remove_all access [] a folder r = refl
find-remove_all access (name ∷ names) a folder r = ground (
  arith,
  find-remove_all access names a (left_by (remove_file access only_reported name folder)) r,
  find-remove_file access name a folder (r name),
)

Holds-remove_file :
    (access : Access) (name a text : String) (folder : Folder)
    → (name == a) ≡ false
    → Holds a text folder
    → Holds a text (left_by (remove_file access only_reported name folder))
Holds-remove_file access name a text folder h k =
    left_by-After (Holds a text) (remove_file access only_reported name folder) (
      (Keeps-find a (λ f. stored_text f ≡ some text) (remove_file access only_reported name)
          (λ o. Keeps-remove_file access only_reported a o name h)).at
        folder k)

module _ (parse_addr : String → Option SocketAddr) (reaches : SocketAddr → Bool)
    (access : Access) where
  read-missing :
      (folder : Folder)
      → Has "server.token" none folder
      → read access on_token "server.token" folder ≡ (folder, err missing_token)
  unfolding read
  read-missing folder h = ap (read_as access on_token "server.token" folder) h

  detect-missing :
      (folder : Folder) (addr : String)
      → access.reads "server.addr" ≡ true
      → Holds "server.addr" addr folder
      → Has "server.token" none folder
      → (detect_joined_server parse_addr reaches access folder).1 ≡ err missing_token
  unfolding detect_joined_server
  detect-missing folder addr r h k =
      ap
        (λ q.
          (continue
            (λ a. read access on_token "server.token" >>= λ t.
              connect_with parse_addr reaches access (trim a) (trim t))
            q).1)
        (read-returns access on_addr "server.addr" addr folder r h)
      ∙ ap (λ q. (continue (λ t. connect_with parse_addr reaches access (trim addr) (trim t)) q).1)
          (read-missing folder k)

  is_there : (o : Option Stored) (text : String) → stored_text o ≡ some text → is_some o ≡ true
  is_there none text h = cc
  is_there (some f) text h = refl

  first_round :
      (seen : ℕ → Folder × Bool) (left : ℕ) (folder : Folder) (finished : Bool)
      → seen 0 ≡ (folder, finished)
      → exists "server.addr" folder ≡ true
      → wait_from parse_addr reaches access seen 0 (suc left)
        ≡ (detect_joined_server parse_addr reaches access folder).1
  unfolding wait_from
  first_round seen left folder finished e h = rw e (rw h refl)

  -- If a governor stopped that ran no app of its own, its address is still there without its token. A
  -- run of an app that looks for the files before its own governor has written them takes that address
  -- for its governor's, and fails for the token. If instead the files are removed as they are when a
  -- governor's app ends, it finds no file of the four. Both hold if files can be removed, and the
  -- first, if the files had been written.
  pub wait_for_governor-unpublish :
      (governor : Access) (addr token pid : String) (folder : Folder) (finished : Bool)
      (seen : ℕ → Folder × Bool)
      → CanPublish governor
      → ((name : String) → governor.removes name ≡ true)
      → access.reads "server.addr" ≡ true
      → seen 0 ≡ (unpublish governor (publish governor addr token pid folder), finished)
      → (wait_for_governor parse_addr reaches access seen ≡ err missing_token)
        × ((a : String)
            → find a (remove_discovery_files governor (publish governor addr token pid folder)) ≡ (
                if contains discovery_files a
                then none
                else find a (publish governor addr token pid folder)))
  unfolding wait_for_governor unpublish remove_discovery_files
  wait_for_governor-unpublish governor addr token pid folder finished seen can r s e =
      let published = publish governor addr token pid folder in
      let no_pid = left_by (remove_file governor only_reported "server.pid" published) in
      let stopped = unpublish governor published in
      let has_addr : Holds "server.addr" addr stopped =
        Holds-remove_file governor "server.token" "server.addr" addr no_pid refl (
          Holds-remove_file governor "server.pid" "server.addr" addr published refl
            (publish-Holds governor addr token pid folder can).0) in
      let no_token : Has "server.token" none stopped =
        find-remove_file governor "server.token" "server.token" no_pid (r "server.token") in
      (
        first_round seen 199 stopped finished e
              (is_there (find "server.addr" stopped) addr has_addr)
            ∙ detect-missing stopped addr s has_addr no_token,
        λ a. find-remove_all governor discovery_files a published r,
      )
