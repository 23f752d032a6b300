-- ===== src/Config/Precedence.antt =====
-- What `searchAPIKey` guarantees, and which source wins.
use xacc_ibm.Common.{
  ◌⊎◌, inl, inr, refl, ◌≡◌, ◌≢◌, [], ◌∷◌, ◌++◌, some, ok, ◌>>=◌, >>=-eq-ok, arith, at_hand,
}
use xacc_ibm.Common.Text.{Text, codes}
use xacc_ibm.Accelerator.{Options}
use xacc_ibm.Config.{
  contents_or_empty, Credentials, Surroundings, read_lines, read_credentials, find_api_key_in_file,
  check_key, search_api_key,
}

pub key-cases : (t : Text) → (t ≡ []) ⊎ (t ≢ [])
key-cases [] = inl refl
key-cases (c ∷ t) = inr (λ e. cc e)

check_key-key : (S : Surroundings) (c c' : Credentials) → check_key S c ≡ ok c' → c'.key ≢ []
unfolding check_key
check_key-key S c c' e = elim (key-cases c.key) [
  | inl h ↦ absurd (cc (rw h at e))
  | inr h ↦ λ n. h (ground arith)
]

-- When the search for credentials succeeds, the API key that it leaves is not empty, wherever the
-- credentials came from.
search_api_key-key :
    (S : Surroundings) (opts : Options) (c c' : Credentials)
    → search_api_key S opts c ≡ ok c'
    → c'.key ≢ []
unfolding search_api_key
search_api_key-key S opts c c' h =
    let (home, e, h') =
      >>=-eq-ok (at_hand (S.getenv (codes "HOME")))
        (λ home. read_credentials S opts (home ++ codes "/.ibm_config") c >>= λ d. check_key S d)
        h in
    let (d, e', h'') =
      >>=-eq-ok (read_credentials S opts (home ++ codes "/.ibm_config") c) (λ d. check_key S d)
        h' in
    check_key-key S d c' h''

find_api_key_in_file-lines :
    (S : Surroundings) (path t : Text) (c : Credentials)
    → S.contents path ≡ some t
    → find_api_key_in_file S path c ≡ read_lines S (S.split t b'\n') c
unfolding find_api_key_in_file
find_api_key_in_file-lines S path t c e = rw (e, contents_or_empty) refl

-- When `$HOME/.ibm_config` exists, the search reads the lines of that file, whatever `$IBM_CONFIG`
-- and the options say, and checks the key.
pub search_api_key-home_first :
    (S : Surroundings) (opts : Options) (c : Credentials) (home t : Text)
    → S.getenv (codes "HOME") ≡ some home
    → S.contents (home ++ codes "/.ibm_config") ≡ some t
    → search_api_key S opts c ≡ (read_lines S (S.split t b'\n') c >>= λ d. check_key S d)
unfolding search_api_key read_credentials
search_api_key-home_first S opts c home t h e =
    rw (h, read_credentials, e, find_api_key_in_file-lines S (home ++ codes "/.ibm_config") t c e)
      refl
