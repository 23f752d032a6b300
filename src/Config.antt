-- ===== src/Config.antt =====
-- `searchAPIKey` and `findApiKeyInFile` (accelerator/IBMAccelerator.cpp): the credentials from
-- `$HOME/.ibm_config`, from the file of `$IBM_CONFIG` or from the options. `xacc::split` and
-- `xacc::trim` are XACC's; files and the environment are functions.
pub mod Precedence
pub mod File
use xacc_ibm.Common.{
  Bool, List, [], ◌∷◌, ◌++◌, Option, none, some, Result, ok, err, error, undefined, at_hand, ◌>>=◌,
  if◌then◌else◌, get_elem?, ℕ,
}
use xacc_ibm.Common.Text.{Text, codes, find_in}
use xacc_ibm.Accelerator.{Options}

-- The five reference parameters.
pub record Credentials : Type 0 where
  pub key : Text
  pub url : Text
  pub hub : Text
  pub group : Text
  pub project : Text

-- What surrounds the search: `split` at a character, `trim`, `getenv`, and the contents of a file
-- that exists. A stream on a missing file reads as empty.
pub record Surroundings : Type 0 where
  pub split : Text → ℕ → List Text
  pub trim : Text → Text
  pub getenv : Text → Option Text
  pub contents : Text → Option Text

module _ (S : Surroundings) where
  -- The trimmed `i`-th piece of a line.
  unfoldable pub piece : Text → ℕ → Result Text
  piece l i = do p ← at_hand (get_elem? (S.split l b':') i); ok (S.trim p)

  -- The body of the loop over the lines.
  unfoldable pub read_line : Text → Credentials → Result Credentials
  unfolding piece
  read_line l c =
      if find_in l (codes "key")
      then (do v ← piece l 1; ok (record c { key = v }))
      else if find_in l (codes "url")
      then (do
        scheme ← at_hand (get_elem? (S.split l b':') 1)
        rest ← at_hand (get_elem? (S.split l b':') 2)
        ok (record c { url = S.trim (scheme ++ codes ":" ++ rest) }))
      else if find_in l (codes "hub")
      then (do v ← piece l 1; ok (record c { hub = v }))
      else if find_in l (codes "group")
      then (do v ← piece l 1; ok (record c { group = v }))
      else if find_in l (codes "project")
      then (do v ← piece l 1; ok (record c { project = v }))
      else ok c

  unfoldable pub read_lines : List Text → Credentials → Result Credentials
  unfolding read_line
  read_lines [] c = ok c
  read_lines (l ∷ ls) c = do c' ← read_line l c; read_lines ls c'

  abbrev pub contents_or_empty : Text → Text
  contents_or_empty path = elim (S.contents path) [ none ↦ [] | some t ↦ t ]

  -- `findApiKeyInFile`
  unfoldable pub find_api_key_in_file : Text → Credentials → Result Credentials
  unfolding read_lines
  find_api_key_in_file path c = read_lines (S.split (contents_or_empty path) b'\n') c

  abbrev option_or : Options → Text → Text → Text
  option_or opts name old = elim (opts name) [ none ↦ old | some v ↦ v ]

  -- The branch of the options.
  unfoldable pub from_options : Options → Credentials → Result Credentials
  from_options opts c = elim (opts (codes "ibm-api-key")) [
    | none ↦ err (error (codes "Cannot execute kernel on IBM chip without API Key."))
    | some key ↦ ok (record {
      key = key;
      url = option_or opts (codes "ibm-api-url") c.url;
      hub = option_or opts (codes "ibm-api-hub") c.hub;
      group = option_or opts (codes "ibm-api-group") c.group;
      project = option_or opts (codes "ibm-api-project") c.project;
    })
  ]

  -- The source of the credentials.
  unfoldable pub read_credentials : Options → Text → Credentials → Result Credentials
  read_credentials opts ibm_config c = elim (S.contents ibm_config) [
    | some t ↦ find_api_key_in_file ibm_config c
    | none ↦ elim (S.getenv (codes "IBM_CONFIG")) [
      | some path ↦ find_api_key_in_file path c
      | none ↦ from_options opts c
    ]
  ]

  abbrev pub empty_key : Text
  empty_key =
      codes
        "Error. The API Key is empty. Please place it in your $HOME/.ibm_config file, $IBM_CONFIG env var, or provide --ibm-api-key argument."

  unfoldable pub check_key : Credentials → Result Credentials
  check_key c = elim c.key [ [] ↦ err (error empty_key) | _ ∷ _ ↦ ok c ]

  -- `searchAPIKey`
  unfoldable pub search_api_key : Options → Credentials → Result Credentials
  unfolding read_credentials check_key
  search_api_key opts c = do
    home ← at_hand (S.getenv (codes "HOME"))
    c' ← read_credentials opts (home ++ codes "/.ibm_config") c
    check_key c'
