-- ===== src/Http/Confined.antt =====
-- Which files the requests of src/http_session.cpp reach.
use mathlib.Core.Option
use streaming_server.Base.{
  ℕ, suc, ◌≡◌, ◌≢◌, refl, ap, sym, ◌∙◌, inl, inr, Bool, true, false, ◌&&◌, [], ◌∷◌, ◌++◌, Option,
  none, some, ◌==◌, if◌then◌else◌, length, drop, arith, Bool-cases, is_some, append_assoc,
}
use streaming_server.Text.{Bytes, codes, bytes_eq}
use streaming_server.Text.Search.{find, contains, starts_with}
use streaming_server.Http.{
  Verb, ok_200, text, ends_in_slash, options, get, delete_, other, Answer, Surroundings, escapes,
  remove_file, delete_recording, is_delete, is_options, recordings_prefix, handle_request,
  static_path, serve_file, serve_contents,
}

starts_with-append : (p ys : Bytes) → starts_with p (p ++ ys) ≡ true
unfolding starts_with
starts_with-append [] ys = refl
starts_with-append (x ∷ p) ys = ground (arith, starts_with-append p ys)

starts_with-split : (p s : Bytes) → starts_with p s ≡ true → s ≡ p ++ drop (length p) s
unfolding starts_with
starts_with-split [] s h = refl
starts_with-split (x ∷ p) [] h = ground arith
starts_with-split (x ∷ p) (y ∷ s) h = ground (arith, starts_with-split p s)

find-at_start : (needle s : Bytes) → starts_with needle s ≡ true → is_some (find needle s) ≡ true
unfolding find
find-at_start needle [] h = rw h refl
find-at_start needle (x ∷ s) h = rw h refl

is_some-map : (o : Option ℕ) → is_some (Option.map suc o) ≡ is_some o
is_some-map none = refl
is_some-map (some n) = refl

find-occurs : (needle xs ys : Bytes) → is_some (find needle (xs ++ (needle ++ ys))) ≡ true
unfolding find
find-occurs needle [] ys = find-at_start needle (needle ++ ys) (starts_with-append needle ys)
find-occurs needle (x ∷ xs) ys =
    elim (Bool-cases (starts_with needle (x ∷ (xs ++ (needle ++ ys))))) [
      | inl here ↦ rw here refl
      | inr later ↦ rw later (is_some-map _ ∙ find-occurs needle xs ys)
    ]

-- A text that is not found does not occur.
not_contains :
    (needle s : Bytes) → contains needle s ≡ false → (xs ys : Bytes) → s ≢ xs ++ (needle ++ ys)
not_contains needle s absent xs ys e =
    let found : is_some (find needle s) ≡ true =
      ap (λ t. is_some (find needle t)) e ∙ find-occurs needle xs ys in
    cc

skip :
    (b : Bool) (a rest : Answer) (f : Bytes)
    → a.removed ≡ none
    → (if b then a else rest).removed ≡ some f
    → rest.removed ≡ some f
skip true a rest f nothing h = ground (arith, nothing, h)
skip false a rest f nothing h = h

remove_file-removes :
    (path f : Bytes) (error : Option Bytes) → (remove_file path error).removed ≡ some f → f ≡ path
remove_file-removes path f none h = ground (arith, h)
remove_file-removes path f (some m) h = ground (arith, h)

delete_recording-removes :
    (env : Surroundings) (name f : Bytes)
    → (delete_recording env name).removed ≡ some f
    → (escapes name ≡ false) × (f ≡ codes "recordings/" ++ name)
unfolding delete_recording
delete_recording-removes env name f h = elim (Bool-cases (escapes name)) [
  | inl out ↦ ground (arith, h, out)
  | inr kept ↦ elim (Bool-cases (env.file_exists (codes "recordings/" ++ name))) [
    | inl there ↦ (
      kept,
      remove_file-removes _ f (env.remove_error (codes "recordings/" ++ name))
          (rw (kept, there) at h),
    )
    | inr gone ↦ ground (arith, h, kept, gone)
  ]
]

serve_contents-removes : (path : Bytes) (o : Option Bytes) → (serve_contents path o).removed ≡ none
serve_contents-removes path none = refl
serve_contents-removes path (some contents) = refl

choose :
    (b : Bool) (a rest : Answer) (f : Bytes)
    → rest.removed ≡ none
    → (if b then a else rest).removed ≡ some f
    → (b ≡ true) × (a.removed ≡ some f)
choose true a rest f nothing h = (refl, h)
choose false a rest f nothing h = ground (arith, nothing, h)

is_delete→eq : (m : Verb) → is_delete m ≡ true → m ≡ delete_
is_delete→eq options h = ground arith
is_delete→eq get h = ground arith
is_delete→eq delete_ h = refl
is_delete→eq other h = ground arith

module _ (env : Surroundings) (method : Verb) (target f : Bytes) where
  removes_only :
      (handle_request env method target).removed ≡ some f
      → (starts_with recordings_prefix target && is_delete method ≡ true)
        × ((delete_recording env (drop 12 target)).removed ≡ some f)
  unfolding handle_request serve_file
  removes_only h =
      choose (starts_with recordings_prefix target && is_delete method) _ (serve_file env target) f
        (serve_contents-removes _ _)
        (skip (bytes_eq target (codes "/recordings")) _ _ f refl (
          skip (bytes_eq target (codes "/test_tunnel")) _ _ f refl (
            skip (bytes_eq target (codes "/tunnel_status")) _ _ f refl (
              skip (bytes_eq target (codes "/api")) _ _ f refl (
                skip (bytes_eq target (codes "/cameras")) _ _ f refl
                  (skip (is_options method) _ _ f refl h))))))

  -- A request removes a file only if it is a DELETE of "/recordings/" and a name in which neither
  -- ".." nor "/" occurs, and the file is the one of this name in the directory of the recordings.
  pub delete_confined :
      (handle_request env method target).removed ≡ some f
      → (name : Bytes) × (method ≡ delete_)
        × (target ≡ recordings_prefix ++ name)
        × (f ≡ codes "recordings/" ++ name)
        × ((xs ys : Bytes) → name ≢ xs ++ (codes ".." ++ ys))
        × ((xs ys : Bytes) → name ≢ xs ++ (codes "/" ++ ys))
  delete_confined h =
      let name = drop 12 target in
      let (routed, removed) = removes_only h in
      let (kept, is_file) = delete_recording-removes env name f removed in
      let no_dots : contains (codes "..") name ≡ false = ground (arith, kept) in
      let no_slash : contains (codes "/") name ≡ false = ground (arith, kept) in
      let prefixed : starts_with recordings_prefix target ≡ true = ground (arith, routed) in
      let deletes : is_delete method ≡ true = ground (arith, routed) in
      (
        name,
        is_delete→eq method deletes,
        starts_with-split recordings_prefix target prefixed,
        is_file,
        not_contains (codes "..") name no_dots,
        not_contains (codes "/") name no_slash,
      )

ends_in_slash-append : (s : Bytes) (c : ℕ) → ends_in_slash (s ++ c ∷ []) ≡ (c == b'/')
ends_in_slash-append [] c = refl
ends_in_slash-append (x ∷ []) c = refl
ends_in_slash-append (x ∷ y ∷ s) c = ends_in_slash-append (y ∷ s) c

static_path-plain :
    (root front : Bytes) (c : ℕ)
    → (c == b'/') ≡ false
    → static_path root (front ++ c ∷ []) ≡ root ++ (front ++ c ∷ [])
unfolding static_path
static_path-plain root front c plain =
    let last : ends_in_slash (root ++ (front ++ c ∷ [])) ≡ false =
      ap ends_in_slash (sym (append_assoc root front (c ∷ [])))
      ∙ (ends_in_slash-append (root ++ front) c ∙ plain) in
    rw last refl

served_from_parent :
    (env : Surroundings) (path : Bytes) (c : ℕ)
    → (c == b'/') ≡ false
    → handle_request env get (codes "/../" ++ (path ++ c ∷ []))
      ≡ serve_contents
          (env.doc_root ++ (codes "/../" ++ (path ++ c ∷ [])))
          (env.contents (env.doc_root ++ (codes "/../" ++ (path ++ c ∷ []))))
unfolding handle_request serve_file bytes_eq starts_with
served_from_parent env path c plain =
    ap (λ p. serve_contents p (env.contents p))
      (static_path-plain env.doc_root (codes "/../" ++ path) c plain)

-- If the system finds a file behind the parent of the directory that is served, a GET of "/../" and
-- its name is answered with status 200 and the contents of that file, for any name that does not end
-- in "/".
pub get_leaves_root :
    (env : Surroundings) (path contents : Bytes) (c : ℕ)
    → (c == b'/') ≡ false
    → env.contents (env.doc_root ++ (codes "/../" ++ (path ++ c ∷ []))) ≡ some contents
    → ((handle_request env get (codes "/../" ++ (path ++ c ∷ []))).status ≡ ok_200)
      × ((handle_request env get (codes "/../" ++ (path ++ c ∷ []))).body ≡ text contents)
get_leaves_root env path contents c plain found =
    let answered =
      served_from_parent env path c plain
      ∙ ap (serve_contents (env.doc_root ++ (codes "/../" ++ (path ++ c ∷ [])))) found in
    (ap (λ (a : Answer). a.status) answered, ap (λ (a : Answer). a.body) answered)
