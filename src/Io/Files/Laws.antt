-- ===== src/Io/Files/Laws.antt =====
-- What each call leaves of the files, whether it succeeds or fails.
use ati_tcp_file_transfer.Base.{ℕ, ◌≡◌, ◌≢◌, refl, sym, ap, ◌∙◌, arith}
use ati_tcp_file_transfer.Base.{
  true, false, bytes_eq, bytes_eq_self, bytes_eq→eq, Bool-cases, Option-cases, ◌⊎◌, inl, inr,
}
use ati_tcp_file_transfer.Base.{
  Option, none, some, List, [], ◌∷◌, ◌++◌, length, take, drop, append-nil, take-append-drop,
}
use ati_tcp_file_transfer.Io.Files.{
  FilePath, Files, store, overwrite, file_size, open_existing, open_truncated, write, flush, rename,
  remove, replace, flush_buffer, read_from_start, Outcome, succeeds, fails, next_outcome,
}

pub store_self :
    (c : FilePath → Option (List ℕ)) (p : FilePath) (v : Option (List ℕ)) → store c p v p ≡ v
unfolding store
store_self c p v = rw (bytes_eq_self p)

pub store_ne :
    (c : FilePath → Option (List ℕ)) (p q : FilePath) (v : Option (List ℕ))
    → q ≢ p
    → store c p v q ≡ c q
unfolding store
store_ne c p q v other = elim (Bool-cases (bytes_eq q p)) [
  | inl same ↦ absurd (other (bytes_eq→eq q p same))
  | inr differ ↦ rw differ
]

pub flush-contents : (fs : Files) → (flush fs).1.contents ≡ fs.contents
unfolding flush
flush-contents fs = refl

pub read_from_start-contents :
    (fs : Files) (path : FilePath) → (read_from_start fs path).1.contents ≡ fs.contents
unfolding read_from_start
read_from_start-contents fs path = refl

-- What is read of a file from its start are first bytes of it.
pub read_from_start_prefix :
    (fs : Files) (path : FilePath) (content : List ℕ)
    → fs.contents path ≡ some content
    → (rest : List ℕ) × (content ≡ (read_from_start fs path).0 ++ rest)
unfolding read_from_start next_outcome
read_from_start_prefix fs path content there = of_outcome fs.outcomes
  where
    of_outcome :
        (os : List Outcome)
        → (rest : List ℕ) × (content
            ≡ (read_from_start (record fs { outcomes = os }) path).0 ++ rest)
    of_outcome [] = ([], rw there (sym (append-nil content)))
    of_outcome (succeeds ∷ os) = ([], rw there (sym (append-nil content)))
    of_outcome (fails n ∷ os) = (drop n content, rw there (sym (take-append-drop n content)))

-- A flush of the buffer leaves some first bytes of the file, whether it succeeds or fails.
pub flush_buffer_prefix :
    (fs : Files) (path : FilePath) (content : List ℕ)
    → fs.contents path ≡ some content
    → (stored rest : List ℕ) × ((flush_buffer fs path).1.contents path ≡ some stored)
      × (content ≡ stored ++ rest)
unfolding flush_buffer next_outcome
flush_buffer_prefix fs path content there = of_outcome fs.outcomes
  where
    of_outcome :
        (os : List Outcome)
        → (stored rest : List ℕ) × ((flush_buffer (record fs { outcomes = os }) path).1.contents
              path
            ≡ some stored)
          × (content ≡ stored ++ rest)
    of_outcome [] = (content, [], there, sym (append-nil content))
    of_outcome (succeeds ∷ os) = (content, [], there, sym (append-nil content))
    of_outcome (fails n ∷ os) = (
      take n content,
      drop n content,
      store_self fs.contents path _ ∙ rw there,
      sym (take-append-drop n content),
    )

pub remove-contents :
    (fs : Files) (path p : FilePath) → p ≢ path → (remove fs path).contents p ≡ fs.contents p
unfolding remove
remove-contents fs path p other = ground (arith, store_ne fs.contents path p none other)

pub file_size-contents :
    (fs : Files) (path : FilePath) → (file_size fs path).1.contents ≡ fs.contents
unfolding file_size
file_size-contents fs path = refl

pub open_existing-contents :
    (fs : Files) (path : FilePath) → (open_existing fs path).1.contents ≡ fs.contents
unfolding open_existing
open_existing-contents fs path = ground arith

-- A file that could be opened is there, and its size is the one that was reported before.
pub open_existing_there :
    (fs : Files) (path : FilePath)
    → (open_existing (file_size fs path).1 path).0 ≡ true
    → (c : List ℕ) × (fs.contents path ≡ some c)
      × ((n : ℕ) → (file_size fs path).0 ≡ some n → n ≡ length c)
unfolding open_existing file_size
open_existing_there fs path e = elim (Option-cases (fs.contents path)) [
  | inl absent ↦ absurd (ground arith)
  | inr (c, there) ↦ (c, there, λ n k. ground arith)
]

pub open_truncated-contents :
    (fs : Files) (path : FilePath)
    → (open_truncated fs path).0 ≡ true
    → (open_truncated fs path).1.contents ≡ store fs.contents path (some [])
unfolding open_truncated
open_truncated-contents fs path e = ground arith

pub write-contents :
    (fs : Files) (path : FilePath) (offset : ℕ) (b c : List ℕ)
    → fs.contents path ≡ some c
    → (write fs path offset b).0 ≡ true
    → (write fs path offset b).1.contents ≡ store fs.contents path (some (overwrite c offset b))
unfolding write
write-contents fs path offset b c there e = ground arith

-- A rename that succeeds had its source, and moved it.
pub record Moved (fs fs' : Files) (from to : FilePath) : Type 0 where
  pub content : List ℕ
  pub source : fs.contents from ≡ some content
  pub target : fs'.contents to ≡ some content
  pub gone : fs'.contents from ≡ none
  pub others : (p : FilePath) → p ≢ from → p ≢ to → fs'.contents p ≡ fs.contents p

pub rename_succeeds :
    (fs : Files) (from to : FilePath)
    → to ≢ from
    → (rename fs from to).0 ≡ true
    → Moved fs (rename fs from to).1 from to
unfolding rename
rename_succeeds fs from to apart e = elim (Option-cases (fs.contents from)) [
  | inl absent ↦ absurd (ground arith)
  | inr (c, there) ↦ record {
    content = c;
    source = there;
    target = ground (arith, store_self (store fs.contents from none) to (some c));
    gone = ground (
      arith,
      store_ne (store fs.contents from none) to from (some c) (λ k. apart (sym k)),
      store_self fs.contents from none,
    );
    others = λ p p_from p_to. ground (
      arith,
      store_ne (store fs.contents from none) to p (some c) p_to,
      store_ne fs.contents from p none p_from,
    );
  }
]

pub rename_fails :
    (fs : Files) (from to : FilePath)
    → (rename fs from to).0 ≡ false
    → (rename fs from to).1.contents ≡ fs.contents
unfolding rename
rename_fails fs from to e = ground arith

-- Files that agree outside the target are moved alike.
pub Moved-before :
    (fs fs₁ fs' : Files) (from to : FilePath)
    → from ≢ to
    → ((p : FilePath) → p ≢ to → fs₁.contents p ≡ fs.contents p)
    → Moved fs₁ fs' from to
    → Moved fs fs' from to
Moved-before fs fs₁ fs' from to apart agree m = record {
  content = m.content;
  source = sym (agree from apart) ∙ m.source;
  target = m.target;
  gone = m.gone;
  others = λ p p_from p_to. m.others p p_from p_to ∙ agree p p_to;
}

-- Where the first attempt fails, only the target can differ before the second.
cleared-contents :
    (fs : Files) (from to p : FilePath)
    → (rename fs from to).0 ≡ false
    → p ≢ to
    → (remove (rename fs from to).1 to).contents p ≡ fs.contents p
cleared-contents fs from to p e other =
    remove-contents (rename fs from to).1 to p other
    ∙ ap (λ (c : FilePath → Option (List ℕ)). c p) (rename_fails fs from to e)

pub replace_succeeds :
    (fs : Files) (from to : FilePath)
    → to ≢ from
    → (replace fs from to).0 ≡ true
    → Moved fs (replace fs from to).1 from to
unfolding replace
replace_succeeds fs from to apart e =
    let first = rename fs from to in
    let second = rename (remove first.1 to) from to in
    elim (Bool-cases first.0) [
      | inl moved ↦ rw moved (rename_succeeds fs from to apart moved)
      | inr stays ↦
          let again : second.0 ≡ true = ground arith in
          rw (stays, again)
            (Moved-before fs (remove first.1 to) second.1 from to (λ k. apart (sym k))
              (λ p other. cleared-contents fs from to p stays other)
              (rename_succeeds (remove first.1 to) from to apart again))
    ]

pub replace_fails :
    (fs : Files) (from to p : FilePath)
    → (replace fs from to).0 ≡ false
    → p ≢ to
    → (replace fs from to).1.contents p ≡ fs.contents p
unfolding replace
replace_fails fs from to p e other =
    ground
      (arith, cleared-contents fs from to p, rename_fails (remove (rename fs from to).1 to) from to)

differ : (p q : FilePath) → p ≢ q → bytes_eq p q ≡ false
differ p q other = elim (Bool-cases (bytes_eq p q)) [
  | inl same ↦ absurd (other (bytes_eq→eq p q same))
  | inr apart ↦ apart
]

-- Calls keep the files they do not name, whether they succeed or fail.
pub open_truncated-others :
    (fs : Files) (path p : FilePath)
    → p ≢ path
    → (open_truncated fs path).1.contents p ≡ fs.contents p
unfolding open_truncated store
open_truncated-others fs path p other = ground (arith, differ p path other)

pub write-others :
    (fs : Files) (path : FilePath) (offset : ℕ) (b : List ℕ) (p : FilePath)
    → p ≢ path
    → (write fs path offset b).1.contents p ≡ fs.contents p
unfolding write store
write-others fs path offset b p other = ground (arith, differ p path other)

pub flush_buffer-others :
    (fs : Files) (path p : FilePath)
    → p ≢ path
    → (flush_buffer fs path).1.contents p ≡ fs.contents p
unfolding flush_buffer store
flush_buffer-others fs path p other = ground (arith, differ p path other)

pub rename-others :
    (fs : Files) (from to p : FilePath)
    → p ≢ from
    → p ≢ to
    → (rename fs from to).1.contents p ≡ fs.contents p
unfolding rename store
rename-others fs from to p p_from p_to = ground (arith, differ p from p_from, differ p to p_to)

pub replace-others :
    (fs : Files) (from to p : FilePath)
    → p ≢ from
    → p ≢ to
    → (replace fs from to).1.contents p ≡ fs.contents p
unfolding replace
replace-others fs from to p p_from p_to = ground (
  arith,
  rename-others fs from to p p_from p_to,
  rename-others (remove (rename fs from to).1 to) from to p p_from p_to,
  remove-contents (rename fs from to).1 to p p_to,
)

remove_target :
    (fs : Files) (p : FilePath)
    → ((remove fs p).contents p ≡ fs.contents p) ⊎ ((remove fs p).contents p ≡ none)
unfolding remove
remove_target fs p = ground (arith, store_self fs.contents p none)

-- A replacement that fails has kept its target or removed it.
pub replace_target :
    (fs : Files) (from to : FilePath)
    → (replace fs from to).0 ≡ false
    → ((replace fs from to).1.contents to ≡ fs.contents to)
      ⊎ ((replace fs from to).1.contents to ≡ none)
unfolding replace
replace_target fs from to e = ground (
  arith,
  rename_fails fs from to,
  rename_fails (remove (rename fs from to).1 to) from to,
  remove_target (rename fs from to).1 to,
)
