-- ===== src/Ber/Append.antt =====
-- What `AppendChild` changes of a packet, and what it keeps.
use gldap.Base.{[], ◌++◌, ◌∷◌, ◌≡◌}
use gldap.Ber.{Ber, IsBer, Packet, children, class_type, node, tag, tag_type, to_list-snoc}

module _ (b : Ber) (l : IsBer b) where
  pub class_type-append_child : (p q : Packet) → class_type (b.append_child p q) ≡ class_type p
  class_type-append_child (node c t g v d ps) q = rw (l.append_child_node)

  pub tag_type-append_child : (p q : Packet) → tag_type (b.append_child p q) ≡ tag_type p
  tag_type-append_child (node c t g v d ps) q = rw (l.append_child_node)

  pub tag-append_child : (p q : Packet) → tag (b.append_child p q) ≡ tag p
  tag-append_child (node c t g v d ps) q = rw (l.append_child_node)

  pub children-append_child : (p q : Packet) → children (b.append_child p q) ≡ children p ++ q ∷ []
  children-append_child (node c t g v d ps) q = rw (l.append_child_node) (to_list-snoc ps q)
