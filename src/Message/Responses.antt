-- ===== src/Message/Responses.antt =====
-- The responses of a message that a Builder (message/builder.go) has been given piece by piece.
use go_graphsync.Base.{ℕ, Bool, false, ◌||◌, List, [], ◌∷◌, ◌++◌, Option, some, ◌==◌, if◌then◌else◌}
use go_graphsync.Message.{Block, Extension, LinkAction, Metadatum, Request}
use go_graphsync.Message.Builder.{
  Builder, add_request, add_block, add_link, add_extension_data, add_response_code,
}

-- A call of one of the builder's methods that add something.
pub data Addition : Type 0 where
  of_request : Request → Addition
  of_block : Block → Addition
  of_link : ℕ → ℕ → LinkAction → Addition
  of_extension : ℕ → Extension → Addition
  of_code : ℕ → ℕ → Addition

unfoldable pub add_one : Addition → Builder → Builder
unfolding add_request add_block add_link add_extension_data add_response_code
add_one (of_request q) b = add_request q b
add_one (of_block x) b = add_block x b
add_one (of_link id link action) b = add_link id link action b
add_one (of_extension id e) b = add_extension_data id e b
add_one (of_code id code) b = add_response_code id code b

unfoldable pub add_all : List Addition → Builder → Builder
unfolding add_one
add_all [] b = b
add_all (a ∷ more) b = add_all more (add_one a b)

-- What a call says of a request's response.
abbrev pub concerns : ℕ → Addition → Bool
concerns id (of_request q) = false
concerns id (of_block x) = false
concerns id (of_link j link action) = j == id
concerns id (of_extension j e) = j == id
concerns id (of_code j code) = j == id

abbrev pub link_of : ℕ → Addition → List Metadatum
link_of id (of_request q) = []
link_of id (of_block x) = []
link_of id (of_link j link action) =
    if j == id then record { link = link; action = action } ∷ [] else []
link_of id (of_extension j e) = []
link_of id (of_code j code) = []

abbrev pub extension_of : ℕ → Addition → List Extension
extension_of id (of_request q) = []
extension_of id (of_block x) = []
extension_of id (of_link j link action) = []
extension_of id (of_extension j e) = if j == id then e ∷ [] else []
extension_of id (of_code j code) = []

abbrev pub code_of : ℕ → Addition → Option ℕ → Option ℕ
code_of id (of_request q) before = before
code_of id (of_block x) before = before
code_of id (of_link j link action) before = before
code_of id (of_extension j e) before = before
code_of id (of_code j code) before = if j == id then some code else before

-- What the calls together say of it: whether anything, which links and extensions, in order, and the
-- last status.
unfoldable pub any_concerns : ℕ → List Addition → Bool
any_concerns id [] = false
any_concerns id (a ∷ more) = concerns id a || any_concerns id more

unfoldable pub links_of : ℕ → List Addition → List Metadatum
links_of id [] = []
links_of id (a ∷ more) = link_of id a ++ links_of id more

unfoldable pub extensions_of : ℕ → List Addition → List Extension
extensions_of id [] = []
extensions_of id (a ∷ more) = extension_of id a ++ extensions_of id more

unfoldable pub last_code : ℕ → List Addition → Option ℕ → Option ℕ
last_code id [] before = before
last_code id (a ∷ more) before = last_code id more (code_of id a before)
