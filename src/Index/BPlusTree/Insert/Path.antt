-- ===== src/Index/BPlusTree/Insert/Path.antt =====
-- The way of `insert` down to a leaf and up again, as a recursion on the levels.
use laboratory.Base.{
  ℕ, zero, suc, ◌-◌, ◌≡◌, refl, sym, ap, ◌∙◌, arith, Bool, true, false, inl, inr, List, [], ◌∷◌,
  length, get_or, Bool-cases,
}
use laboratory.Index.{Entry, is_no_split}
use laboratory.Index.BPlusTree.Nodes.{moved}
use laboratory.Index.BPlusTree.{BPlusTree}
use laboratory.Index.BPlusTree.Search.{descend, choose}
use laboratory.Index.BPlusTree.Blocks.{read_internal}
use laboratory.Index.BPlusTree.Insert.{insert_leaf, propagate, climb}

-- One step up: what the child promoted goes to the parent.
abbrev up_unless : Bool → ℕ → Entry → BPlusTree → Entry × BPlusTree
up_unless true id promoted t = (promoted, t)
up_unless false id promoted t = propagate promoted id t

abbrev pub up : ℕ → Entry × BPlusTree → Entry × BPlusTree
up id (promoted, t) = up_unless (is_no_split promoted) id promoted t

pub up_none :
    (id : ℕ) (promoted : Entry) (t : BPlusTree)
    → is_no_split promoted ≡ true
    → up id (promoted, t) ≡ (promoted, t)
up_none id promoted t h = ap (λ b. up_unless b id promoted t) h

pub up_some :
    (id : ℕ) (promoted : Entry) (t : BPlusTree)
    → is_no_split promoted ≡ false
    → up id (promoted, t) ≡ propagate promoted id t
up_some id promoted t h = ap (λ b. up_unless b id promoted t) h

-- The last node of a path takes the entry, and the others what comes up.
abbrev pub along : List ℕ → Entry → BPlusTree → Entry × BPlusTree
along path e t =
    let last = length path - 1 in
    let (promoted, t2) = insert_leaf e (get_or path last 0) t in climb path last promoted t2

-- The first node of a path is the last one that the loop comes to.
climb-cons :
    (j a : ℕ) (path : List ℕ) (promoted : Entry) (t : BPlusTree)
    → climb (a ∷ path) (suc j) promoted t ≡ up a (climb path j promoted t)
unfolding climb
climb-cons zero a path promoted t = elim (Bool-cases (is_no_split promoted)) [
  | inl none_left ↦ rw (climb, none_left) refl
  | inr more ↦ rw (climb, more) refl
]
climb-cons (suc j) a path promoted t = elim (Bool-cases (is_no_split promoted)) [
  | inl none_left ↦ rw (climb, none_left) (sym (up_none a promoted t none_left))
  | inr more ↦
      let (promoted', t') = propagate promoted (get_or path j 0) t in
      rw (climb, more) (climb-cons j a path promoted' t')
]

pub along-cons :
    (a b : ℕ) (path : List ℕ) (e : Entry) (t : BPlusTree)
    → along (a ∷ b ∷ path) e t ≡ up a (along (b ∷ path) e t)
along-cons a b path e t =
    let size = length path in
    let (promoted, t2) = insert_leaf e (get_or (b ∷ path) size 0) t in
    let long : suc (suc size) - 1 ≡ suc size = omega arith in
    let short : suc size - 1 ≡ size = omega arith in
    rw (long, short) (climb-cons size a (b ∷ path) promoted t2)

-- The nodes that `getPath` passes below a block.
abbrev pub path_below : ℕ → ℕ → ℕ → BPlusTree → List ℕ
path_below key d id t = (descend key d id t).0.nodes

pub path_below_nonempty :
    (key d id : ℕ) (t : BPlusTree) → (rest : List ℕ) × (path_below key d id t ≡ id ∷ rest)
unfolding descend
path_below_nonempty key zero id t = ([], refl)
path_below_nonempty key (suc d) id t =
    let (node, t1) = read_internal id t in
    (path_below key d (choose key node.first_child node.separators) t1, refl)

-- The path from an internal node is the node and the path from the child that the key leads to.
pub path_below_lem :
    (key d id c child q : ℕ) (seps : List Entry) (t : BPlusTree)
    → read_internal id t ≡ (record { first_child = c; separators = seps }, moved t q)
    → choose key c seps ≡ child
    → path_below key (suc d) id t ≡ id ∷ path_below key d child (moved t q)
unfolding descend
path_below_lem key d id c child q seps t got chosen = rw (got, chosen) refl

-- Going along a path from a node is going along the path from its child, and a step up.
pub along-path_below :
    (e : Entry) (d id c child q : ℕ) (seps : List Entry) (t t' : BPlusTree)
    → read_internal id t ≡ (record { first_child = c; separators = seps }, moved t q)
    → choose e.key c seps ≡ child
    → along (path_below e.key (suc d) id t) e t'
      ≡ up id (along (path_below e.key d child (moved t q)) e t')
along-path_below e d id c child q seps t t' got chosen =
    let (rest, is_path) = path_below_nonempty e.key d child (moved t q) in
    ap (λ path. along path e t') (path_below_lem e.key d id c child q seps t got chosen)
    ∙ ap (λ path. along (id ∷ path) e t') is_path
    ∙ along-cons id child rest e t'
    ∙ ap (λ path. up id (along path e t')) (sym is_path)
