-- ===== src/Menu/Removal.antt =====
-- `submenuRemoveItem` of src/menusys.c.
use opl_future_beta.Base.{
  ℕ, ◌≡◌, ◌≢◌, ◌∙◌, ap, sym, subst, true, false, List, [], ◌∷◌, ◌++◌, Option, none, some, ◌==◌,
  if◌then◌else◌, Each, arith,
}
use opl_future_beta.Menu.{Node, submenu_remove_item}
use opl_future_beta.Menu.Passes.{Linked}

abbrev pub Stays : (id : ℕ) → Node → Type 0
Stays id n = n.item.id ≢ id

remove-Stays :
    (id : ℕ) (n : Node) (ns : List Node)
    → Stays id n
    → submenu_remove_item id (n ∷ ns) ≡ n ∷ submenu_remove_item id ns
unfolding submenu_remove_item
remove-Stays id n ns h =
    let e : (n.item.id == id) ≡ false = ground (arith, h) in
    ap (λ b. if b then submenu_remove_item id ns else n ∷ submenu_remove_item id ns) e

remove-goes :
    (id : ℕ) (n : Node) (ns : List Node)
    → n.item.id ≡ id
    → submenu_remove_item id (n ∷ ns) ≡ submenu_remove_item id ns
unfolding submenu_remove_item
remove-goes id n ns h =
    let e : (n.item.id == id) ≡ true = ground (arith, h) in
    ap (λ b. if b then submenu_remove_item id ns else n ∷ submenu_remove_item id ns) e

not-Linked :
    (id : ℕ) (front : List Node) (a b : Node) (back : List Node) (p : Option ℕ)
    → p ≢ some (a.addr)
    → Each (λ n. n.addr ≢ a.addr) front
    → Each (Stays id) front
    → a.item.id ≡ id
    → Stays id b
    → Linked p (front ++ a ∷ b ∷ back)
    → ¬ Linked p (submenu_remove_item id (front ++ a ∷ b ∷ back))
not-Linked id [] a b back p ne d k e s h l =
    let m = subst (Linked p) (remove-goes id a (b ∷ back) e ∙ remove-Stays id b back s) l in
    ne (sym (m.0) ∙ h.1.0)
not-Linked id (x ∷ front) a b back p ne d k e s h l =
    let m = subst (Linked p) (remove-Stays id x (front ++ a ∷ b ∷ back) (k.0)) l in
    not-Linked id front a b back (some (x.addr)) (λ q. d.0 (some-inj q)) (d.1) (k.1) e s (h.1) (m.1)
  where
    some-inj : {x y : ℕ} → some x ≡ some y → x ≡ y
    some-inj q = cc

-- The nodes in front stay, and so does the one behind.
remove_lem :
    (id : ℕ) (front : List Node) (a b : Node) (back : List Node)
    → Each (Stays id) front
    → a.item.id ≡ id
    → Stays id b
    → submenu_remove_item id (front ++ a ∷ b ∷ back) ≡ front ++ b ∷ submenu_remove_item id back
remove_lem id [] a b back k e s = remove-goes id a (b ∷ back) e ∙ remove-Stays id b back s
remove_lem id (x ∷ front) a b back k e s =
    remove-Stays id x (front ++ a ∷ b ∷ back) (k.0)
    ∙ ap (λ r. x ∷ r) (remove_lem id front a b back (k.1) e s)

prev-behind :
    (front : List Node) (a b : Node) (back : List Node) (p : Option ℕ)
    → Linked p (front ++ a ∷ b ∷ back)
    → b.prev ≡ some (a.addr)
prev-behind [] a b back p l = l.1.0
prev-behind (x ∷ front) a b back p l = prev-behind front a b back (some (x.addr)) (l.1)

-- In a list with the links of its order, where the nodes in front of a node to be removed have other identifiers and
-- other addresses and the node behind it has another identifier: `submenuRemoveItem` takes the node out and leaves
-- the one behind it in its place with the `prev` pointer it had, which is the address of the node that is freed, so
-- that the links are no longer those of the order.
pub submenu_remove_item-NotLinked :
    (id : ℕ) (front : List Node) (a b : Node) (back : List Node)
    → Each (λ n. n.addr ≢ a.addr) front
    → Each (Stays id) front
    → a.item.id ≡ id
    → Stays id b
    → Linked none (front ++ a ∷ b ∷ back)
    → (submenu_remove_item id (front ++ a ∷ b ∷ back) ≡ front ++ b ∷ submenu_remove_item id back)
      × (b.prev ≡ some (a.addr))
      × ¬ Linked none (submenu_remove_item id (front ++ a ∷ b ∷ back))
submenu_remove_item-NotLinked id front a b back d k e s h = (
  remove_lem id front a b back k e s,
  prev-behind front a b back none h,
  not-Linked id front a b back none (λ q. cc) d k e s h,
)
