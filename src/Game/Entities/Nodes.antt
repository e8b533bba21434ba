-- ===== src/Game/Entities/Nodes.antt =====
-- The scene nodes of an entity.
use kge.Prelude.{
  ◌≡◌, refl, ap, sym, ◌∙◌, ℕ, Option, none, some, List, [], ◌∷◌, ◌++◌, append_assoc, append-nil,
}
use kge.Game.Entities.{Entity, Shape, no_mesh, mesh, drop_node, destroy, set_shape_file}

abbrev pub nodes_of : Option ℕ → List ℕ
nodes_of none = []
nodes_of (some node) = node ∷ []

-- The nodes that were added for an entity.
abbrev pub added : List Shape → List ℕ
added [] = []
added (no_mesh ∷ shapes) = added shapes
added (mesh node ∷ shapes) = nodes_of node ++ added shapes

-- One call of `setShapeFile` after the other.
unfoldable pub set_all : Entity → List Shape → Entity
set_all e [] = e
set_all e (shape ∷ shapes) = set_all (set_shape_file e shape) shapes

drop_node_lem : (e : Entity) (node : Option ℕ) → (drop_node e node).drops ≡ e.drops ++ nodes_of node
unfolding drop_node
drop_node_lem e none = sym (append-nil e.drops)
drop_node_lem e (some node) = refl

-- An entity that is given any shape files, of which some cannot be loaded, and is then destroyed: on the
-- node that it had, and on every node that it added, `drop` is called once, in the order in
-- which they were added.
pub set_all-destroy :
    (e : Entity) (shapes : List Shape)
    → (destroy (set_all e shapes)).drops ≡ e.drops ++ (nodes_of e.scene_node ++ added shapes)
unfolding set_all destroy set_shape_file drop_node
set_all-destroy e [] =
    drop_node_lem e e.scene_node ∙ ap (λ l. e.drops ++ l) (sym (append-nil (nodes_of e.scene_node)))
set_all-destroy e (no_mesh ∷ shapes) = set_all-destroy e shapes
set_all-destroy e (mesh node ∷ shapes) =
    set_all-destroy (record (drop_node e e.scene_node) { scene_node = node }) shapes
    ∙ ap (λ l. l ++ (nodes_of node ++ added shapes)) (drop_node_lem e e.scene_node)
    ∙ append_assoc e.drops (nodes_of e.scene_node) (nodes_of node ++ added shapes)
