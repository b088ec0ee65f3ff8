-- ===== src/Tests/Bundles.antt =====
-- Tests of the commands on a certificate bundle, with a CA that writes down what it signs.
use nanny.Prelude.{
  String, ◌<>◌, ◌+◌, ◌*◌, ◌≡◌, refl, true, false, Option, none, some, List, [], ◌∷◌, ok, ◌==◌,
  string_eq, list_eq, list_beq_iff, to_decimal, join, if◌then◌else◌, arith, Bool-cases, inl, inr,
  trim, trim_start, trim_end, is_whitespace, split_once,
}
use nanny.Prelude.Dict.{get, insert, remove_key}
use nanny.Prelude.Exec.{pure, raise, or_raise, gets, raise_if, for_each}
use nanny.Cli.Folder.{
  Folder, Access, whole, failed, find, create_dir_all, read, write, rename, restrict, remove_file,
  remove_dir,
}
use nanny.Cli.Certs.{server_sans, add_name, add_names}
use nanny.Cli.Certs.Bundle.{Crates, CertsMeta, MetaJson, write_meta, read_meta, write_pem, issue}
use nanny.Cli.Certs.Issue.{
  refuse_existing, issue_ca, generate_bundle, cmd_certs_generate, load_ca_key, carried_names,
  cmd_certs_rotate,
}
use nanny.Cli.Certs.Issue.Rotation.{cmd_certs_rotate-ca}
use nanny.Cli.Certs.Issue.Names.{IsReissued, cmd_certs_rotate-IsReissued}
use nanny.Cli.Certs.Import.{
  X509Parser, validate_pem, validate_chain, cert_expiry_from_pem, missing_files, parse_pairs,
  import_file, import_key, check_chain, cmd_certs_import,
}
use nanny.Cli.Certs.Import.Chained.{IsChained, cmd_certs_import_checks}
use nanny.Cli.Certs.Manage.{removed, is_confirmed, remove_one, remove_confirmed, cmd_certs_remove}
use nanny.Cli.Certs.Manage.Removed.{IsRemoval, cmd_certs_remove-IsRemoval}

abbrev pub working : Access
working = record {
  creates = true;
  reads = λ _. true;
  writes = λ _. whole;
  renames = λ _. true;
  restricts = λ _. true;
  removes = λ _. true;
  removes_dir = true;
}

-- The disk is full when server.key is written.
abbrev full_disk : Access
full_disk = record working {
  writes = λ name. if name == "server.key.tmp" then failed (some "") else whole;
}

abbrev sans : List String
sans = " agents-host " ∷ "localhost" ∷ []

abbrev names : List String
names = "localhost" ∷ "127.0.0.1" ∷ "agents-host" ∷ []

-- A meta.json of these names is its expiry.
abbrev to_string_pretty : CertsMeta → Option String
to_string_pretty m = if m.san == names then some m.expires else none

abbrev from_str : String → Option CertsMeta
from_str text = some (record { expires = text; san = names })

-- The keys of one run, and those of another.
abbrev crates : String → Crates
crates run = record {
  rcgen = record {
    accepts = λ _. true;
    generate = λ n. some (run <> to_decimal n);
    from_pem = λ pem. some pem;
    self_signed = λ params key. some ("CA " <> key);
    signed_by =
        λ params key ca ca_key. some (join "," params.names <> " " <> key <> " by " <> ca_key);
  };
  time = record {
    now_utc = 1000;
    plus_days = λ t days. some (t + days * 86400);
    format = λ t. some (to_decimal t);
  };
  json = record { to_string_pretty = to_string_pretty; from_str = from_str };
}

from_str-to_string_pretty :
    (m : CertsMeta) (text : String) → to_string_pretty m ≡ some text → from_str text ≡ some m
from_str-to_string_pretty m text h = elim (Bool-cases (m.san == names)) [
  | inl e ↦ ground (arith, e, h, list_beq_iff m.san names)
  | inr e ↦ absurd (ground (arith, e, h))
]

abbrev pub no_bundle : Folder
no_bundle = record { is_there = false; files = [] }

abbrev generated : Folder
generated = (cmd_certs_generate working (crates "a") false 30 sans no_bundle).0

abbrev rotated : Folder
rotated = (cmd_certs_rotate working (crates "b") [] generated).0

generates : cmd_certs_generate working (crates "a") false 30 sans no_bundle ≡ (generated, ok tt)
unfolding cmd_certs_generate refuse_existing generate_bundle issue_ca issue write_pem write_meta
    create_dir_all write rename restrict get insert remove_key pure raise or_raise gets raise_if
    for_each server_sans add_names add_name trim trim_start trim_end is_whitespace to_decimal
generates = refl

rotates : cmd_certs_rotate working (crates "b") [] generated ≡ (rotated, ok tt)
unfolding cmd_certs_rotate load_ca_key carried_names read_meta read cmd_certs_generate
    refuse_existing generate_bundle issue_ca issue write_pem write_meta create_dir_all write rename
    restrict get insert remove_key pure raise or_raise gets raise_if for_each server_sans add_names
    add_name trim trim_start trim_end is_whitespace to_decimal
rotates = refl

loads_key :
    (key : String)
    → (crates "a").rcgen.generate 0 ≡ some key
    → (crates "b").rcgen.from_pem key ≡ some key
loads_key key h = refl

cmd_certs_rotate-IsReissued_example :
    IsReissued (crates "a") (crates "b") (server_sans sans) rotated
cmd_certs_rotate-IsReissued_example =
    cmd_certs_rotate-IsReissued working working (crates "a") (crates "b") false 30 sans no_bundle
      generated rotated generates refl from_str-to_string_pretty loads_key rotates

-- The disk that is full leaves the CA, too.
cmd_certs_rotate-ca_example :
    (find "ca.crt" (cmd_certs_rotate full_disk (crates "b") [] generated).0
      ≡ find "ca.crt" generated)
    × (find "ca.key" (cmd_certs_rotate full_disk (crates "b") [] generated).0
        ≡ find "ca.key" generated)
cmd_certs_rotate-ca_example = cmd_certs_rotate-ca full_disk (crates "b") [] generated

abbrev x509 : X509Parser
x509 = record {
  parse_pem = λ pem. some pem;
  from_der = λ der. some (record { public_key = "k"; not_after = some 5 });
  verify_signature = λ der key. key == "k";
}

abbrev pairs : List String
pairs = "ca=-----BEGIN ca" ∷ "cert=@/tls.crt" ∷ "key=-----BEGIN key" ∷ []

abbrev read_path : String → Option String
read_path path = some "-----BEGIN cert"

abbrev imported_json : MetaJson
imported_json = record { to_string_pretty = λ m. some m.expires; from_str = λ t. none }

abbrev import_crates : Crates
import_crates = record (crates "a") { json = imported_json }

abbrev imported : Folder
imported = (cmd_certs_import working import_crates x509 read_path pairs generated).0

imports : cmd_certs_import working import_crates x509 read_path pairs generated ≡ (imported, ok [])
unfolding cmd_certs_import parse_pairs import_file import_key check_chain validate_pem
    validate_chain cert_expiry_from_pem missing_files read split_once cmd_certs_generate
    refuse_existing generate_bundle issue_ca issue write_pem write_meta create_dir_all write rename
    restrict get insert remove_key pure raise or_raise gets raise_if for_each server_sans add_names
    add_name trim trim_start trim_end is_whitespace to_decimal
imports = refl

cmd_certs_import_checks_example :
    IsChained import_crates x509 imported
    × (find "ca.key" imported ≡ find "ca.key" generated)
    × (find "client.crt" imported ≡ find "client.crt" generated)
    × (find "client.key" imported ≡ find "client.key" generated)
cmd_certs_import_checks_example =
    cmd_certs_import_checks working import_crates x509 read_path pairs generated imported imports

abbrev after_removal : Folder
after_removal = (cmd_certs_remove working (some " Yes\n") generated).0

removes : cmd_certs_remove working (some " Yes\n") generated ≡ (after_removal, ok removed)
unfolding cmd_certs_remove remove_confirmed remove_one remove_file remove_dir is_confirmed
    cmd_certs_generate refuse_existing generate_bundle issue_ca issue write_pem write_meta
    create_dir_all write rename restrict get insert remove_key pure raise or_raise gets raise_if
    for_each server_sans add_names add_name trim trim_start trim_end is_whitespace to_decimal
removes = refl

cmd_certs_remove-IsRemoval_example : IsRemoval generated (some " Yes\n") removed after_removal
cmd_certs_remove-IsRemoval_example =
    cmd_certs_remove-IsRemoval working (some " Yes\n") generated after_removal removed removes
