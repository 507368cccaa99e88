-- ===== src/Transfer/Ftp/Script.antt =====
-- A scripted FTP server of two files, for the tests.
use device_cli_tool.Base.{false, List, [], ◌∷◌, ◌⊎◌, inr, Result, ok, err}
use device_cli_tool.Base.Exec.{Exec, continue}
use device_cli_tool.Base.Exec.Triples.{Ends}
use device_cli_tool.Text.{codes}
use device_cli_tool.Transfer.Local.{Content}
use device_cli_tool.Transfer.Ftp.Server.{Facts, Ftplib}
use device_cli_tool.Transfer.Ftp.Download.Outcome.{CallsBack}

-- The blocks go to the callback one by one, until it raises.
abbrev deliver : {S : Type 0} → List Content → (Content → Exec S (Unit {0})) → Exec S (Unit {0})
deliver [] callback s = (ok tt, s)
deliver (chunk ∷ chunks) callback s =
    let (r, s') = callback chunk s in continue r (λ _. deliver chunks callback) s'

abbrev sized_file : Facts
sized_file =
    (codes "type", codes "file")
    ∷ (codes "size", codes "5")
    ∷ (codes "modify", codes "20231114221320")
    ∷ []

abbrev blocks : List Content
blocks = codes "abc" ∷ codes "de" ∷ []

-- A server of two files, with `prot_p` and the CA file's presence given.
abbrev pub server : Result (Unit {0}) → Ftplib
server protection = record {
  State = Unit;
  is_file = λ path. false;
  load_ca = λ path s. (ok tt, s);
  new_client = λ security s. (ok tt, s);
  connect = λ port s. (ok tt, s);
  login = λ s. (ok tt, s);
  prot_p = λ s. (protection, s);
  set_pasv = λ passive s. (ok tt, s);
  quit = λ s. (ok tt, s);
  close = λ s. (ok tt, s);
  mlsd = λ directory facts s. (
    ok ((codes "b.log", sized_file) ∷ (codes ".", sized_file) ∷ (codes "a.log", sized_file) ∷ []),
    s,
  );
  sendcmd = λ command s. (
    ok (codes "250-Listing\r\n type=file;size=5;modify=20231114221320; /logs/a.log\r\n250 End"),
    s,
  );
  retrlines = λ command s. (ok [], s);
  retrbinary =
      λ command callback blocksize (t, s). let (r, s') = deliver blocks callback s in (r, (t, s'));
}

module _ {S : Type 0} (P E : S → Type 0) (callback : Content → Exec S (Unit {0}))
    (call : (chunk : Content) (s : S) → P s → Ends (λ (_ : Unit {0}). P) E (callback chunk s)) where
  continue_lem :
      (rest : Exec S (Unit {0})) (r : Result (Unit {0})) (s : S)
      → ((s : S) → P s → Ends (λ (_ : Unit {0}). P) (λ s. P s ⊎ E s) (rest s))
      → Ends (λ (_ : Unit {0}). P) E (r, s)
      → Ends (λ (_ : Unit {0}). P) (λ s. P s ⊎ E s) (continue r (λ _. rest) s)
  continue_lem rest (ok u) s next h = next s h
  continue_lem rest (err e) s next h = inr h

  deliver_lem :
      (chunks : List Content) (s : S)
      → P s
      → Ends (λ (_ : Unit {0}). P) (λ s. P s ⊎ E s) (deliver chunks callback s)
  deliver_lem [] s h = h
  deliver_lem (chunk ∷ chunks) s h =
      let (r, s') = callback chunk s in
      continue_lem (deliver chunks callback) r s' (deliver_lem chunks) (call chunk s h)

paired_lem :
    {S T : Type 0} (P E : S → Type 0) (t : T) (r : Result (Unit {0})) (s : S)
    → Ends (λ (_ : Unit {0}). P) (λ s. P s ⊎ E s) (r, s)
    → Ends (λ (_ : Unit {0}) (ts : T × S). P ts.1) (λ ts. P ts.1 ⊎ E ts.1) (r, (t, s))
paired_lem P E t (ok u) s h = h
paired_lem P E t (err e) s h = h

pub server-CallsBack : (protection : Result (Unit {0})) → CallsBack (server protection)
server-CallsBack protection = record {
  between_calls = λ P E command callback blocksize call t s h.
      let (r, s') = deliver blocks callback s in
      paired_lem P E t r s' (deliver_lem P E callback call blocks s h);
}
