-- ===== src/Config/File.antt =====
-- A configuration file as it is written, and what `searchAPIKey` reads of it.
use xacc_ibm.Common.{
  ℕ, ◌<◌, ◌≡◌, ◌≢◌, refl, ◌∙◌, ap, Bool, true, false, List, [], ◌∷◌, ◌++◌, some, ok, ◌>>=◌, ◌==◌,
  arith, All, All-append, append_assoc, not, ◌&&◌, inl, inr,
}
use xacc_ibm.Common.Text.{Text, codes, find_in, starts_with}
use xacc_ibm.Accelerator.{Options}
use xacc_ibm.Config.{
  Credentials, Surroundings, piece, read_line, read_lines, check_key, search_api_key,
}
use xacc_ibm.Config.Precedence.{key-cases, search_api_key-home_first}

-- The pieces with the character `c` between.
abbrev pub join : ℕ → List Text → Text
join c [] = []
join c (p ∷ []) = p
join c (p ∷ q ∷ ps) = p ++ c ∷ join c (q ∷ ps)

-- A text that is not empty and is free of `c`.
abbrev pub IsPiece : ℕ → Text → Type 0
IsPiece c p = (p ≢ []) × All (λ d. (d == c) ≡ false) p

-- A text with no blank, no control character and no colon.
abbrev pub IsValue : Text → Type 0
IsValue t = All (λ c. (32 < c) × ((c == b':') ≡ false)) t

-- What is used of `xacc::split` and `xacc::trim`: pieces that are joined by a character are split
-- again, and a blank in front of a text that has no blank is taken off.
pub record Reads (S : Surroundings) : Type 0 where
  pub split_join : (c : ℕ) (ps : List Text) → All (IsPiece c) ps → S.split (join c ps) c ≡ ps
  pub trim_blank : (t : Text) → All (λ c. 32 < c) t → S.trim (b' ' ∷ t) ≡ t

-- The entries of a file, the address in the two parts around its colon, and the file.
pub record Entries : Type 0 where
  pub key : Text
  pub scheme : Text
  pub rest : Text
  pub hub : Text
  pub group : Text
  pub project : Text

abbrev pub lines : Entries → List Text
lines e =
    (codes "key: " ++ e.key)
    ∷ (codes "url: " ++ (e.scheme ++ b':' ∷ e.rest))
    ∷ (codes "hub: " ++ e.hub)
    ∷ (codes "group: " ++ e.group)
    ∷ (codes "project: " ++ e.project)
    ∷ []

abbrev pub file : Entries → Text
file e = join b'\n' (lines e)

abbrev pub credentials : Entries → Credentials
credentials e = record {
  key = e.key;
  url = e.scheme ++ b':' ∷ e.rest;
  hub = e.hub;
  group = e.group;
  project = e.project;
}

-- The text is not read as an entry of one of these names.
abbrev pub Lacks : Text → List Text → Type 0
Lacks t names = All (λ n. find_in t n ≡ false) names

-- The entries are values, the key and the address are there, and no entry has the name of an earlier
-- one in it.
pub record IsWritten (e : Entries) : Type 0 where
  pub key_there : e.key ≢ []
  pub rest_there : e.rest ≢ []
  pub key_value : IsValue e.key
  pub scheme_value : IsValue e.scheme
  pub rest_value : IsValue e.rest
  pub hub_value : IsValue e.hub
  pub group_value : IsValue e.group
  pub project_value : IsValue e.project
  pub url_lacks : Lacks (e.scheme ++ b':' ∷ e.rest) (codes "key" ∷ [])
  pub hub_lacks : Lacks e.hub (codes "key" ∷ codes "url" ∷ [])
  pub group_lacks : Lacks e.group (codes "key" ∷ codes "url" ∷ codes "hub" ∷ [])
  pub project_lacks : Lacks e.project (codes "key" ∷ codes "url" ∷ codes "hub" ∷ codes "group" ∷ [])

word_of : (t : Text) → IsValue t → All (λ c. 32 < c) t
word_of [] h = tt
word_of (c ∷ t) h = (h.0.0, word_of t h.1)

no_colon : (t : Text) → IsValue t → All (λ c. (c == b':') ≡ false) t
no_colon [] h = tt
no_colon (c ∷ t) h = (h.0.1, no_colon t h.1)

no_line_end : (t : Text) → All (λ c. 32 < c) t → All (λ c. (c == b'\n') ≡ false) t
no_line_end [] h = tt
no_line_end (c ∷ t) h = (ground (arith, h.0), no_line_end t h.1)

words_joined :
    (s t : Text) → All (λ c. 32 < c) s → All (λ c. 32 < c) t → All (λ c. 32 < c) (s ++ b':' ∷ t)
words_joined [] t h k = (omega arith, k)
words_joined (c ∷ s) t h k = (h.0, words_joined s t h.1 k)

-- The same as a test, for the names of the entries.
abbrev is_piece : ℕ → Text → Bool
is_piece c [] = false
is_piece c (d ∷ []) = not (d == c)
is_piece c (d ∷ e ∷ p) = not (d == c) && is_piece c (e ∷ p)

by_test : (c : ℕ) (p : Text) → is_piece c p ≡ true → IsPiece c p
by_test c [] h = absurd (cc h)
by_test c (d ∷ []) h = ((λ e. cc e), (ground (arith, h), tt))
by_test c (d ∷ e ∷ p) h =
    ((λ e. cc e), (ground (arith, h), (by_test c (e ∷ p) (ground (arith, h))).1))

line-IsPiece :
    (name t : Text) → IsPiece b'\n' name → All (λ c. 32 < c) t → IsPiece b'\n' (name ++ t)
line-IsPiece [] t n h = absurd (n.0 refl)
line-IsPiece (c ∷ name) t n h = ((λ e. cc e), All-append _ (c ∷ name) t n.1 (no_line_end t h))

check_key_there : (S : Surroundings) (c : Credentials) → c.key ≢ [] → check_key S c ≡ ok c
unfolding check_key
check_key_there S c h = elim (key-cases c.key) [ inl e ↦ absurd (h e) | inr e ↦ ground arith ]

module _ (S : Surroundings) (R : Reads S) where
  -- The second piece of a line, without its blank.
  piece_lem :
      (name v : Text) → IsPiece b':' name → IsValue v → piece S (name ++ b':' ∷ b' ' ∷ v) 1 ≡ ok v
  unfolding piece
  piece_lem name v n h =
      rw
        (
          R.split_join b':' (name ∷ (b' ' ∷ v) ∷ []) (n, (((λ e. cc e), (refl, no_colon v h)), tt)),
          R.trim_blank v (word_of v h),
        )
        refl

  key_line :
      (v : Text) (c : Credentials)
      → IsValue v
      → read_line S (codes "key: " ++ v) c ≡ ok (record c { key = v })
  unfolding read_line find_in starts_with
  key_line v c h = rw (piece_lem (codes "key") v (by_test b':' _ refl) h) refl

  hub_line :
      (v : Text) (c : Credentials)
      → IsValue v
      → Lacks v (codes "key" ∷ codes "url" ∷ [])
      → read_line S (codes "hub: " ++ v) c ≡ ok (record c { hub = v })
  unfolding read_line find_in starts_with
  hub_line v c h l = rw (l.0, l.1.0, piece_lem (codes "hub") v (by_test b':' _ refl) h) refl

  group_line :
      (v : Text) (c : Credentials)
      → IsValue v
      → Lacks v (codes "key" ∷ codes "url" ∷ codes "hub" ∷ [])
      → read_line S (codes "group: " ++ v) c ≡ ok (record c { group = v })
  unfolding read_line find_in starts_with
  group_line v c h l =
      let name : IsPiece b':' (codes "group") = by_test b':' _ refl in
      rw (l.0, l.1.0, l.1.1.0, piece_lem (codes "group") v name h) refl

  project_line :
      (v : Text) (c : Credentials)
      → IsValue v
      → Lacks v (codes "key" ∷ codes "url" ∷ codes "hub" ∷ codes "group" ∷ [])
      → read_line S (codes "project: " ++ v) c ≡ ok (record c { project = v })
  unfolding read_line find_in starts_with
  project_line v c h l =
      let name : IsPiece b':' (codes "project") = by_test b':' _ refl in
      rw (l.0, l.1.0, l.1.1.0, l.1.1.1.0, piece_lem (codes "project") v name h) refl

  -- The address is put together again at its colon.
  url_line :
      (s r : Text) (c : Credentials)
      → IsValue s
      → IsValue r
      → r ≢ []
      → Lacks (s ++ b':' ∷ r) (codes "key" ∷ [])
      → read_line S (codes "url: " ++ (s ++ b':' ∷ r)) c ≡ ok (record c { url = s ++ b':' ∷ r })
  unfolding read_line find_in starts_with
  url_line s r c h k n l =
      rw
        (
          l.0,
          R.split_join b':' (codes "url" ∷ (b' ' ∷ s) ∷ r ∷ []) (
            (by_test b':' _ refl),
            (((λ e. cc e), (refl, no_colon s h)), ((n, no_colon r k), tt)),
          ),
          append_assoc s (codes ":") r,
          R.trim_blank (s ++ b':' ∷ r) (words_joined s r (word_of s h) (word_of r k)),
        )
        refl

  lines_lem :
      (e : Entries) (c : Credentials) → IsWritten e → read_lines S (lines e) c ≡ ok (credentials e)
  unfolding read_lines
  lines_lem e c w =
      rw
        (
          key_line e.key c w.key_value,
          url_line e.scheme e.rest _ w.scheme_value w.rest_value w.rest_there w.url_lacks,
          hub_line e.hub _ w.hub_value w.hub_lacks,
          group_line e.group _ w.group_value w.group_lacks,
          project_line e.project _ w.project_value w.project_lacks,
        )
        refl

  split_file : (e : Entries) → IsWritten e → S.split (file e) b'\n' ≡ lines e
  split_file e w =
      let address =
        words_joined e.scheme e.rest (word_of e.scheme w.scheme_value)
          (word_of e.rest w.rest_value) in
      R.split_join b'\n' (lines e) (
        line-IsPiece (codes "key: ") e.key (by_test b'\n' _ refl) (word_of e.key w.key_value),
        (
          line-IsPiece (codes "url: ") (e.scheme ++ b':' ∷ e.rest) (by_test b'\n' _ refl) address,
          (
            line-IsPiece (codes "hub: ") e.hub (by_test b'\n' _ refl) (word_of e.hub w.hub_value),
            (
              line-IsPiece (codes "group: ") e.group (by_test b'\n' _ refl)
                  (word_of e.group w.group_value),
              (
                line-IsPiece (codes "project: ") e.project (by_test b'\n' _ refl)
                    (word_of e.project w.project_value),
                tt,
              ),
            ),
          ),
        ),
      )

-- When $HOME/.ibm_config has the lines `key: `, `url: `, `hub: `, `group: ` and `project: ` with an
-- entry behind each, the search for credentials leaves these entries, whatever the options,
-- $IBM_CONFIG and the old credentials are; where the entries have no blank, control character or
-- colon, but for the one colon of the address, the key and what stands behind that colon are not
-- empty, no entry has the word of an earlier line in it, `split` undoes a joining of pieces, and
-- `trim` takes off a blank in front.
pub search_api_key-file :
    (S : Surroundings)
    → Reads S
    → (opts : Options) (c : Credentials) (home : Text) (e : Entries) → IsWritten e
    → S.getenv (codes "HOME") ≡ some home
    → S.contents (home ++ codes "/.ibm_config") ≡ some (file e)
    → search_api_key S opts c ≡ ok (credentials e)
search_api_key-file S R opts c home e w h there =
    search_api_key-home_first S opts c home (file e) h there
    ∙ ap (λ ls. read_lines S ls c >>= λ d. check_key S d) (split_file S R e w)
    ∙ ap (λ m. m >>= λ d. check_key S d) (lines_lem S R e c w)
    ∙ check_key_there S (credentials e) w.key_there
