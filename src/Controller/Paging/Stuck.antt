-- ===== src/Controller/Paging/Stuck.antt =====
-- pkg/driver/controllerserver.go: the loop of ListVolumes over two items with one id.
use reference_guides.Base.{pos, GoString, eq_refl, ◌≡◌, refl, Bool, true, List, [], ◌∷◌, ok}
use reference_guides.Controller.Paging.{page_loop, list_page}

-- Where the first two items have one id, a client that asks for one entry from that id gets the first
-- item and that id as the next token: it never gets past them.
pub list_page_sticks :
    {A : Type 0} (id_of : A → GoString) (is_shown : A → Bool) (y z : A) (rest : List A)
    → id_of z ≡ id_of y
    → is_shown y ≡ true
    → is_shown z ≡ true
    → list_page id_of is_shown (pos 1) (id_of y) (y ∷ z ∷ rest) ≡ ok (y ∷ [], id_of y)
unfolding list_page page_loop
list_page_sticks id_of is_shown y z rest same hy hz = rw (same, eq_refl (id_of y), hy, hz) refl
