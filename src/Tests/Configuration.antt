-- ===== src/Tests/Configuration.antt =====
-- A configuration file that is read, with a `split` that is `std::getline` until the text ends and a
-- `trim` of the front.
use xacc_ibm.Common.{
  ℕ, ◌<◌, ◌≡◌, refl, true, false, List, [], ◌∷◌, ◌++◌, some, ok, ◌==◌, leb, if◌then◌else◌, arith,
  All, ==_iff, Bool,
}
use xacc_ibm.Common.Text.{Text, codes, find_in, starts_with}
use xacc_ibm.Accelerator.{Options}
use xacc_ibm.Config.{Credentials, Surroundings, search_api_key}
use xacc_ibm.Config.File
use xacc_ibm.Config.File.{
  join, IsPiece, Reads, Entries, file, credentials, IsWritten, search_api_key-file,
}

abbrev onto_first : ℕ → List Text → List Text
onto_first d [] = (d ∷ []) ∷ []
onto_first d (p ∷ ps) = (d ∷ p) ∷ ps

abbrev pieces : ℕ → Text → List Text
pieces c [] = []
pieces c (d ∷ s) = let rest = pieces c s in if d == c then [] ∷ rest else onto_first d rest

abbrev trimmed : Text → Text
trimmed [] = []
trimmed (c ∷ t) = let rest = trimmed t in if leb c 32 then rest else c ∷ t

pieces-piece : (c : ℕ) (p : Text) → IsPiece c p → pieces c p ≡ p ∷ []
pieces-piece c [] h = absurd (h.0 refl)
pieces-piece c (d ∷ []) h = rw (h.1.0) refl
pieces-piece c (d ∷ e ∷ p) h = rw (h.1.0, pieces-piece c (e ∷ p) ((λ x. cc x), h.1.1)) refl

same_code : (c : ℕ) → (c == c) ≡ true
same_code c = (==_iff c c).1 refl

pieces-before :
    (c : ℕ) (p s : Text) → All (λ d. (d == c) ≡ false) p → pieces c (p ++ c ∷ s) ≡ p ∷ pieces c s
pieces-before c [] s h = rw (same_code c) refl
pieces-before c (d ∷ p) s h = rw (h.0, pieces-before c p s h.1) refl

pieces-join : (c : ℕ) (ps : List Text) → All (IsPiece c) ps → pieces c (join c ps) ≡ ps
pieces-join c [] h = refl
pieces-join c (p ∷ []) h = pieces-piece c p h.0
pieces-join c (p ∷ q ∷ ps) h =
    rw (pieces-before c p (join c (q ∷ ps)) h.0.1, pieces-join c (q ∷ ps) h.1) refl

trimmed-word : (t : Text) → All (λ c. 32 < c) t → trimmed (b' ' ∷ t) ≡ t
trimmed-word [] h = refl
trimmed-word (c ∷ t) h = ground (arith, h.0)

abbrev entries : Entries
entries = record {
  key = codes "abc";
  scheme = codes "https";
  rest = codes "//q.example.com/api";
  hub = codes "ibm";
  group = codes "open";
  project = codes "main";
}

abbrev files : Surroundings
files = record {
  split = λ t c. pieces c t;
  trim = trimmed;
  getenv = λ name. some (codes "/root");
  contents = λ path. some (file entries);
}

files-Reads : Reads files
files-Reads = record { split_join = pieces-join; trim_blank = trimmed-word }

abbrev is_value : Text → Bool
is_value [] = true
is_value (c ∷ t) =
    let rest = is_value t in if leb c 32 then false else if c == b':' then false else rest

is_value-IsValue : (t : Text) → is_value t ≡ true → File.IsValue t
is_value-IsValue [] h = tt
is_value-IsValue (c ∷ t) h =
    ((ground (arith, h), ground (arith, h)), is_value-IsValue t (ground (arith, h)))

entries-IsWritten : IsWritten entries
unfolding find_in starts_with
entries-IsWritten = record {
  key_there = λ e. cc e;
  rest_there = λ e. cc e;
  key_value = is_value-IsValue (codes "abc") refl;
  scheme_value = is_value-IsValue (codes "https") refl;
  rest_value = is_value-IsValue (codes "//q.example.com/api") refl;
  hub_value = is_value-IsValue (codes "ibm") refl;
  group_value = is_value-IsValue (codes "open") refl;
  project_value = is_value-IsValue (codes "main") refl;
  url_lacks = (refl, tt);
  hub_lacks = (refl, (refl, tt));
  group_lacks = (refl, (refl, (refl, tt)));
  project_lacks = (refl, (refl, (refl, (refl, tt))));
}

-- An option that says another address does not count.
abbrev other_url : Options
other_url = λ name. some (codes "other")

abbrev no_credentials : Credentials
no_credentials = record { key = []; url = codes "u"; hub = []; group = []; project = [] }

search_api_key-file_example :
    search_api_key files other_url no_credentials
    ≡ ok (record {
      key = codes "abc";
      url = codes "https://q.example.com/api";
      hub = codes "ibm";
      group = codes "open";
      project = codes "main";
    })
search_api_key-file_example =
    search_api_key-file files files-Reads other_url no_credentials (codes "/root") entries
      entries-IsWritten refl refl
