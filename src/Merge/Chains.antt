-- ===== src/Merge/Chains.antt =====
-- The reading of the files leaves a dictionary with exact counts, and an edge between each two
-- records that follow one another in a file.
use token_board.Base.{
  ℕ, suc, ◌≤◌, ◌≡◌, refl, ◌∙◌, ◌⊎◌, inl, inr, Bool, true, false, ◌&&◌, ◌||◌, not, Option, none,
  some, List, [], ◌∷◌, length, length-append, All, ◌==◌, Bool-cases, Option-cases, arith, ok, err,
  ok-injective, >>=-returns,
}
use mathlib.Core.Path.{subst}
use mathlib.Core.Option.{some-injective}
use token_board.Merge.{
  Node, Line, Context, Physical, stopped, unreadable, readable, Reading, count, find_node,
  successors_of, add_edge, edge_from, new_node, place, read_line, read_lines, read_files, open_file,
  unread_files, next_context,
}
use token_board.Merge.Topological.Graph.{is_node}
use token_board.Merge.Topological.Complete.{IsDictionary}
use token_board.Merge.Edges.{
  IsNumbered, is_node-append, append-IsDictionary, successors_of-append, is_node-link, length-link,
  count-successors-link, link-IsDictionary,
}

-- A well-formed dictionary whose nodes are numbered from 0.
pub record IsWhole (ns : List Node) : Type 0 where
  pub dictionary : IsDictionary ns
  pub numbered : IsNumbered ns

-- Every edge of the first dictionary is in the second.
abbrev pub Extends : List Node → List Node → Type 0
Extends ns ms = (a b : ℕ) → 1 ≤ count b (successors_of a ns) → 1 ≤ count b (successors_of a ms)

abbrev Kept : List Node → List Node → Type 0
Kept ns ms = Extends ns ms × ((x : ℕ) → is_node x ns ≡ true → is_node x ms ≡ true)

find_node-is_node :
    (fingerprint occurrence : ℕ) (ns : List Node) {x : ℕ}
    → find_node fingerprint occurrence ns ≡ some x
    → is_node x ns ≡ true
unfolding find_node
find_node-is_node fingerprint occurrence [] h = cc
find_node-is_node fingerprint occurrence (n ∷ ns) h =
    elim (Bool-cases ((n.fingerprint == fingerprint) && (n.occurrence == occurrence))) [
      | inl hit ↦ let e = some-injective _ _ (rw hit at h) in ground arith
      | inr miss ↦
          let rest = find_node-is_node fingerprint occurrence ns (rw miss at h) in ground arith
    ]

-- A node is placed: the dictionary is whole, has the node, and has kept its edges and nodes.
Placed : List Node → List Node × ℕ → Type 0
Placed ns r = IsWhole r.0 × (is_node r.1 r.0 ≡ true) × Kept ns r.0

place-Placed :
    (l : Line) (occurrence : ℕ) (context : Context) (ns : List Node)
    → IsWhole ns
    → Placed ns (place l occurrence context ns)
unfolding place new_node Placed
place-Placed l occurrence context ns h =
    elim (Option-cases (find_node l.fingerprint occurrence ns)) [
      | inr (x, found) ↦
          rw (found, place)
            (h, find_node-is_node l.fingerprint occurrence ns found, ((λ a b e. e), (λ x k. k)))
      | inl absent ↦
          let n : Node = new_node l occurrence context (length ns) in
          rw (absent, place)
            (
              record {
                dictionary =
                    append-IsDictionary ns n refl refl (ground (arith, h.numbered (length ns)))
                      h.dictionary;
                numbered = λ x.
                    ground (
                      arith,
                      h.numbered x,
                      is_node-append x ns (n ∷ []),
                      length-append ns (n ∷ []),
                    );
              },
              ground (arith, is_node-append (length ns) ns (n ∷ [])),
              (
                (λ a b e. rw (successors_of-append n refl refl a ns) e),
                (λ x k. ground (arith, is_node-append x ns (n ∷ []))),
              ),
            )
    ]

-- The edge from the previous record is there, unless it is the same node.
unfoldable pub Linked : Option ℕ → ℕ → List Node → Type 0
Linked none x ns = Unit
Linked (some p) x ns = ((p == x) ≡ true) ⊎ (1 ≤ count x (successors_of p ns))

abbrev IsPlaced : Option ℕ → List Node → Type 0
IsPlaced none ns = Unit
IsPlaced (some p) ns = is_node p ns ≡ true

edge_from-Linked :
    (p : Option ℕ) (x : ℕ) (ns : List Node)
    → IsPlaced p ns
    → is_node x ns ≡ true
    → IsWhole ns
    → IsWhole (edge_from p x ns) × Linked p x (edge_from p x ns) × Kept ns (edge_from p x ns)
unfolding edge_from add_edge Linked
edge_from-Linked none x ns p_in x_in h = (h, tt, ((λ a b e. e), (λ x k. k)))
edge_from-Linked (some p) x ns p_in x_in h =
    elim (Bool-cases ((p == x) || not (count x (successors_of p ns) == 0))) [
      | inl there ↦ rw there (h, ground arith, ((λ a b e. e), (λ x k. k)))
      | inr new ↦ rw new (
        record {
          dictionary = link-IsDictionary p x ns p_in x_in h.dictionary;
          numbered = λ y. ground (arith, is_node-link p x y ns, length-link p x ns, h.numbered y);
        },
        inr (ground (arith, count-successors-link p x p x ns)),
        (
          (λ a b e. omega (arith, count-successors-link p x a b ns)),
          (λ y k. is_node-link p x y ns ∙ k),
        ),
      )
    ]

-- A reading whose dictionary is whole, and whose previous record has its node.
pub record IsSound (r : Reading) : Type 0 where
  pub whole : IsWhole r.nodes
  pub placed : IsPlaced r.previous r.nodes

-- The node of a line.
abbrev node_of : Line → Reading → ℕ
node_of l r = (place l (suc (count l.fingerprint r.seen)) (next_context l r.context) r.nodes).1

-- The nodes of the readable lines of a file, in its order.
unfoldable pub nodes_of : Bool → List Physical → Reading → List ℕ
nodes_of is_first [] r = []
nodes_of is_first (stopped ∷ ls) r = []
nodes_of is_first (unreadable ∷ ls) r = nodes_of is_first ls r
nodes_of is_first (readable l ∷ ls) r = node_of l r ∷ nodes_of is_first ls (read_line is_first l r)

Linked-Extends :
    (p : Option ℕ) (x : ℕ) (ns ms : List Node) → Extends ns ms → Linked p x ns → Linked p x ms
unfolding Linked
Linked-Extends none x ns ms k h = tt
Linked-Extends (some p) x ns ms k (inl same) = inl same
Linked-Extends (some p) x ns ms k (inr e) = inr (k p x e)

Kept-trans : (ns ms ks : List Node) → Kept ns ms → Kept ms ks → Kept ns ks
Kept-trans ns ms ks (h, i) (k, j) = ((λ a b e. k a b (h a b e)), (λ x n. j x (i x n)))

IsPlaced-Kept : (p : Option ℕ) (ns ms : List Node) → Kept ns ms → IsPlaced p ns → IsPlaced p ms
IsPlaced-Kept none ns ms k h = tt
IsPlaced-Kept (some p) ns ms (_, k) h = k p h

read_line-IsSound :
    (is_first : Bool) (l : Line) (r : Reading)
    → IsSound r
    → IsSound (read_line is_first l r)
      × Kept r.nodes (read_line is_first l r).nodes
      × Linked r.previous (node_of l r) (read_line is_first l r).nodes
      × ((read_line is_first l r).previous ≡ some (node_of l r))
unfolding read_line Placed
read_line-IsSound is_first l r h =
    let occurrence : ℕ = suc (count l.fingerprint r.seen) in
    let context : Context = next_context l r.context in
    let (whole, x_in, kept) = place-Placed l occurrence context r.nodes h.whole in
    let ns : List Node = (place l occurrence context r.nodes).0 in
    let (whole', linked, kept') =
      edge_from-Linked r.previous (node_of l r) ns
        (IsPlaced-Kept r.previous r.nodes ns kept h.placed) x_in whole in
    let ms : List Node = edge_from r.previous (node_of l r) ns in
    (
      record { whole = whole'; placed = kept'.1 (node_of l r) x_in },
      Kept-trans r.nodes ns ms kept kept',
      linked,
      refl,
    )

-- Each node is linked from the one before it.
abbrev pub IsChain : List Node → Option ℕ → List ℕ → Type 0
IsChain ns p [] = Unit
IsChain ns p (x ∷ xs) = Linked p x ns × IsChain ns (some x) xs

IsChain-Extends :
    (ns ms : List Node) (p : Option ℕ) (xs : List ℕ)
    → Extends ns ms
    → IsChain ns p xs
    → IsChain ms p xs
IsChain-Extends ns ms p [] k h = tt
IsChain-Extends ns ms p (x ∷ xs) k (linked, h) =
    (Linked-Extends p x ns ms k linked, IsChain-Extends ns ms (some x) xs k h)

Reads : Bool → List Physical → Reading → Reading → Type 0
Reads is_first ls r r' =
    IsSound r' × Kept r.nodes r'.nodes × IsChain r'.nodes r.previous (nodes_of is_first ls r)

read_lines-Reads :
    (is_first : Bool) (ls : List Physical) (r : Reading) {r' : Reading}
    → IsSound r
    → read_lines is_first ls r ≡ ok r'
    → Reads is_first ls r r'
unfolding read_lines nodes_of Reads
read_lines-Reads is_first [] r h e =
    subst (λ (s : Reading). IsSound s × Kept r.nodes s.nodes × Unit) (ok-injective e)
      (h, ((λ a b k. k), (λ x k. k)), tt)
read_lines-Reads is_first (stopped ∷ ls) r h e = cc
read_lines-Reads is_first (unreadable ∷ ls) r h e = read_lines-Reads is_first ls r h e
read_lines-Reads is_first (readable l ∷ ls) r {r' = r'} h e =
    let (sound, kept, linked, last) = read_line-IsSound is_first l r h in
    let next : Reading = read_line is_first l r in
    let (sound', kept', chain) = read_lines-Reads is_first ls next sound e in
    (
      sound',
      Kept-trans r.nodes next.nodes r'.nodes kept kept',
      (
        Linked-Extends r.previous (node_of l r) next.nodes r'.nodes kept'.0 linked,
        subst (λ p. IsChain r'.nodes p (nodes_of is_first ls next)) last chain,
      ),
    )

-- The nodes of every file, in the order of the file.
unfoldable pub nodes_of_files : Bool → List (List Physical) → Reading → List (List ℕ)
unfolding nodes_of
nodes_of_files is_first [] r = []
nodes_of_files is_first (f ∷ fs) r = elim (read_lines is_first f (open_file r)) [
  | ok r' ↦ nodes_of is_first f (open_file r) ∷ nodes_of_files false fs r'
  | err e ↦ []
]

abbrev pub AreChains : List Node → List (List ℕ) → Type 0
AreChains ns = All (IsChain ns none)

AreChains-Extends :
    (ns ms : List Node) (xss : List (List ℕ)) → Extends ns ms → AreChains ns xss → AreChains ms xss
AreChains-Extends ns ms [] k h = tt
AreChains-Extends ns ms (xs ∷ xss) k (h, hs) =
    (IsChain-Extends ns ms none xs k h, AreChains-Extends ns ms xss k hs)

pub read_files-AreChains :
    (is_first : Bool) (fs : List (List Physical)) (r : Reading) {r' : Reading}
    → IsWhole r.nodes
    → read_files is_first fs r ≡ ok r'
    → IsWhole r'.nodes × Kept r.nodes r'.nodes × AreChains r'.nodes (nodes_of_files is_first fs r)
unfolding read_files nodes_of_files Reads
read_files-AreChains is_first [] r h e =
    subst (λ (s : Reading). IsWhole s.nodes × Kept r.nodes s.nodes × Unit) (ok-injective e)
      (h, ((λ a b k. k), (λ x k. k)), tt)
read_files-AreChains is_first (f ∷ fs) r {r' = r'} h e =
    let (s, e1, e2) =
      >>=-returns (read_lines is_first f (open_file r)) (λ s. read_files false fs s) e in
    let (sound, kept, chain) =
      read_lines-Reads is_first f (open_file r) (record { whole = h; placed = tt }) e1 in
    let (whole, kept', chains) = read_files-AreChains false fs s sound.whole e2 in
    rw (e1, nodes_of_files)
      (
        whole,
        Kept-trans r.nodes s.nodes r'.nodes kept kept',
        (
          IsChain-Extends s.nodes r'.nodes none (nodes_of is_first f (open_file r)) kept'.0 chain,
          chains,
        ),
      )

pub unread-IsWhole : IsWhole []
unfolding successors_of
unread-IsWhole = record {
  dictionary = record {
    graph = record { distinct = tt; closed = λ a b h. absurd (omega arith) };
    counted = λ b h. cc;
  };
  numbered = λ x. ground arith;
}

-- The reading of the files leaves a dictionary.
pub read_files-IsDictionary :
    (files : List (List Physical)) {r : Reading}
    → read_files true files unread_files ≡ ok r
    → IsDictionary r.nodes
read_files-IsDictionary files k =
    (read_files-AreChains true files unread_files unread-IsWhole k).0.dictionary
