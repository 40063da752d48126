-- ===== src/Persist/RoundTrip/Texts.antt =====
-- The operations that have texts and paths only are read back.
use josh.Base.{
  ℕ, true, Option, none, some, List, [], ◌∷◌, Text, ◌≡◌, refl, ap, ap₂, ◌∙◌, map, length, ◌≤◌,
  traverse, some_inj, >>=-eq-some,
}
use josh.FilePath.{FilePath}
use josh.Filter.Op.{
  Filter, LinkMode, InsertContent, LazyRef, inline, oid, embedded, snapshot, pointer, link,
  regex_replace, insert, file, pattern, message, downstack,
}
use josh.Tree.Object.{Obj, Entries, Mode, tree_mode}
use josh.Apply.Run.{Run, ok, lift, ◌>>=◌}
use josh.Persist.Utf8.{bytes, IsUtf8, to_string_lossy_lem}
use josh.Persist.PathText.{path_text, path_of, IsPath}
use josh.Persist.PathText.RoundTrip.{path_of-path_text, path_text-IsUtf8}
use josh.Persist.RefText.{
  Codec, IsCodec, IsRef, lazy_ref_text, parse_lazy_ref-lazy_ref_text, lazy_ref_text-IsUtf8,
}
use josh.Persist.Entries.{read_persisted}
use josh.Persist.Storable.{IsStorableContent, AreRegexes}
use josh.Persist.Write.{
  str_params, path_params, lossy_path, tree_op, insert_params, link_text, object_params,
  insert_mode, filter_params, regex_pair,
}
use josh.Persist.RoundTrip.Lists.{length-map, read_positions}
use josh.Persist.Read.{read_op, read_entry}
use josh.Persist.Read.Params.{read_path, read_one, read_two, read_regex_pair, read_regex_replace}

lossy_path_lem : (p : FilePath) → IsPath p → lossy_path p ≡ path_text p
unfolding lossy_path
lossy_path_lem p h = to_string_lossy_lem (path_text p) (path_text-IsUtf8 p h)

path_params_lem : (p : FilePath) → IsPath p → path_params p ≡ str_params (path_text p ∷ [])
unfolding path_params
path_params_lem p h = ap (λ s. str_params (s ∷ [])) (lossy_path_lem p h)

module _ (c : Codec) (again : Obj → Run Filter) where
  -- The reader of a name gets the entries of the parameters.
  abbrev pub Reads : Text → (Entries → Option Filter) → Type 0
  Reads name read =
      (o : Obj)
      → read_entry c again tree_mode name o ≡ (lift (read_persisted o) >>= λ es. lift (read es))

  abbrev pub OfParams : Text → Obj → Filter → Type 0
  OfParams name o f = read_op c again (tree_op name o) ≡ ok f

  pub read_one-params :
      (name s : Text) (op : Text → Filter)
      → Reads name (read_one op)
      → IsUtf8 s
      → OfParams name (str_params (s ∷ [])) (op s)
  unfolding read_op tree_op read_one str_params
  read_one-params name s op reads h = rw reads (rw h)

  pub read_two-params :
      (name s t : Text) (op : Text → Text → Filter)
      → Reads name (read_two op)
      → IsUtf8 s
      → IsUtf8 t
      → OfParams name (str_params (s ∷ t ∷ [])) (op s t)
  unfolding read_op tree_op read_two str_params
  read_two-params name s t op reads h k = rw reads (rw h (rw k))

  read_path-text :
      (name s : Text) (op : FilePath → Filter)
      → Reads name (read_path op)
      → IsUtf8 s
      → OfParams name (str_params (s ∷ [])) (op (path_of s))
  unfolding read_op tree_op read_path str_params
  read_path-text name s op reads h = rw reads (rw h)

  pub read_path-params :
      (name : Text) (p : FilePath) (op : FilePath → Filter)
      → Reads name (read_path op)
      → IsPath p
      → OfParams name (path_params p) (op p)
  read_path-params name p op reads h = rw (path_params_lem p h) (
      read_path-text name (path_text p) op reads (path_text-IsUtf8 p h)
      ∙ ap (λ q. ok (op q)) (path_of-path_text p h))

  pub read_file-params :
      (dest src : FilePath)
      → IsPath dest
      → IsPath src
      → OfParams (bytes "file") (str_params (lossy_path dest ∷ lossy_path src ∷ [])) (file dest src)
  unfolding read_entry
  read_file-params dest src h k = rw (lossy_path_lem dest h) (
      rw (lossy_path_lem src k) (
        read_two-params (bytes "file") (path_text dest) (path_text src)
          (λ d s. file (path_of d) (path_of s)) (λ o. refl) (path_text-IsUtf8 dest h)
          (path_text-IsUtf8 src k)
        ∙ ap₂ (λ d s. ok (file d s)) (path_of-path_text dest h) (path_of-path_text src k)))

  pub read_link-params :
      (m : Option LinkMode) → OfParams (bytes "link") (str_params (link_text m ∷ [])) (link m)
  unfolding read_op tree_op str_params link_text
  read_link-params none = refl
  read_link-params (some embedded) = refl
  read_link-params (some snapshot) = refl
  read_link-params (some pointer) = refl

  pub read_message-params :
      (fmt re : Text)
      → IsUtf8 fmt
      → IsUtf8 re
      → c.is_regex re ≡ true
      → OfParams (bytes "message") (str_params (fmt ∷ re ∷ [])) (message fmt re)
  unfolding read_op tree_op str_params
  read_message-params fmt re h k r = rw h (rw k (rw r))

  pub read_pattern-params :
      (glob : Text)
      → IsUtf8 glob
      → c.is_glob glob ≡ true
      → OfParams (bytes "pattern") (str_params (glob ∷ [])) (pattern glob)
  unfolding read_op tree_op str_params
  read_pattern-params glob h k = rw h (rw k)

  pub read_downstack-params :
      (r : LazyRef)
      → IsCodec c
      → IsRef r
      → OfParams (bytes "downstack") (str_params (lazy_ref_text c r ∷ [])) (downstack r)
  unfolding read_op tree_op str_params
  read_downstack-params r laws h =
      rw (lazy_ref_text-IsUtf8 c laws r h) (rw (parse_lazy_ref-lazy_ref_text c laws r h))

  inline-text :
      (t s : Text)
      → IsUtf8 t
      → IsUtf8 s
      → OfParams
          (bytes "insert")
          (str_params (t ∷ bytes "inline" ∷ s ∷ []))
          (insert (path_of t) (inline s))
  unfolding read_op tree_op str_params
  inline-text t s h k = rw h (rw k refl)

  object-text :
      (t : Text) (i : ℕ) (m : Mode)
      → IsCodec c
      → IsUtf8 t
      → OfParams (bytes "insert") (object_params t (c.object i) m) (insert (path_of t) (oid i))
  unfolding read_op tree_op object_params
  object-text t i m laws h = rw h (rw (laws.id_of-object i))

  -- An inserted object needs an object source.
  pub read_insert-params :
      (p : FilePath) (content : InsertContent) (o : Obj)
      → IsCodec c
      → IsPath p
      → IsStorableContent content
      → insert_params c true (lossy_path p) content ≡ some o
      → OfParams (bytes "insert") o (insert p content)
  unfolding insert_params
  read_insert-params p (inline s) o laws h k e = rw (← some_inj e) (
      rw (lossy_path_lem p h) (
        inline-text (path_text p) s (path_text-IsUtf8 p h) k
        ∙ ap (λ q. ok (insert q (inline s))) (path_of-path_text p h)))
  read_insert-params p (oid i) o laws h k e =
      let (m, found, e') = >>=-eq-some (insert_mode (c.object i)) _ e in
      rw (← some_inj e') (
        rw (lossy_path_lem p h) (
          object-text (path_text p) i m laws (path_text-IsUtf8 p h)
          ∙ ap (λ q. ok (insert q (oid i))) (path_of-path_text p h)))

  traverse-regex_pair :
      (pairs : List (Text × Text))
      → AreRegexes c pairs
      → traverse (read_regex_pair c) (map regex_pair pairs) ≡ some pairs
  unfolding read_regex_pair regex_pair
  traverse-regex_pair [] h = refl
  traverse-regex_pair ((re, text) ∷ pairs) (h, k, r, rest) =
      rw h (rw k (rw r (rw (traverse-regex_pair pairs rest))))

  pub read_regex_replace-params :
      (pairs : List (Text × Text))
      → length pairs ≤ 10
      → AreRegexes c pairs
      → OfParams
          (bytes "regex_replace")
          (filter_params (map regex_pair pairs))
          (regex_replace pairs)
  unfolding read_op tree_op
  read_regex_replace-params pairs le h =
      let short : length (map regex_pair pairs) ≤ 10 = rw (length-map regex_pair pairs) le in
      let (es, written, positions) = read_positions (map regex_pair pairs) short in
      rw written (rw (positions, read_regex_replace) (rw (traverse-regex_pair pairs h)))
