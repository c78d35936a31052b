-- ===== src/Client/Form.antt =====
-- The items of a form and what sending them writes (src/panda/unievent/http/Form.h, Form.cc, and
-- `send_form` of Client.cc). What the message library makes of a piece of a form is not part of this
-- model: a piece is what it is made of. A text is its bytes.
use uni_event_http.Base.{
  ℕ, zero, suc, Bool, true, false, Option, none, some, List, [], ◌∷◌, ◌++◌, if◌then◌else◌,
}

-- `FormField`, `FormEmbeddedFile` and `FormFile`; the last holds the input that it streams, until that
-- is moved away.
pub data FormItem : Type 0 where
  field : (name content : List ℕ) → FormItem
  embedded_file : (name content mime_type filename : List ℕ) → FormItem
  streamed_file : (input : Option ℕ) → (name mime_type filename : List ℕ) → FormItem

-- What is handed to the stream: `form_field`, `form_file`, `form_data` and `form_finish`, and the start
-- of a streamer on an input.
pub data FormPiece : Type 0 where
  field_piece : (name content : List ℕ) → FormPiece
  file_piece : (name filename mime_type : List ℕ) → FormPiece
  data_piece : List ℕ → FormPiece
  streamer : Option ℕ → FormPiece
  trailer : FormPiece

-- What `start` leaves of an item, what it writes, and what it returns.
pub record Started : Type 0 where
  pub item : FormItem
  pub pieces : List FormPiece
  pub is_done : Bool

unfoldable pub start : FormItem → Started
start (field name content) = record {
  item = field name content;
  pieces = field_piece name content ∷ [];
  is_done = true;
}
start (embedded_file name content mime_type filename) = record {
  item = embedded_file name content mime_type filename;
  pieces = file_piece name filename mime_type ∷ data_piece content ∷ [];
  is_done = true;
}
start (streamed_file input name mime_type filename) = record {
  item = streamed_file none name mime_type filename;
  pieces = streamer input ∷ file_piece name filename mime_type ∷ [];
  is_done = false;
}

-- A run of `send_form` over the items from `_form_field` on: what it leaves of them, what it writes,
-- and the item at which it waits for the streamer, or none after the last.
pub record FormRun : Type 0 where
  pub items : List FormItem
  pub pieces : List FormPiece
  pub form_field : Option ℕ

unfoldable pub send_items : ℕ → List FormItem → FormRun
send_items k [] = record { items = []; pieces = trailer ∷ []; form_field = none }
send_items k (i ∷ items) =
    let s = start i in
    let rest = send_items (suc k) items in
    if s.is_done
    then record {
      items = s.item ∷ rest.items;
      pieces = s.pieces ++ rest.pieces;
      form_field = rest.form_field;
    }
    else record { items = s.item ∷ items; pieces = s.pieces; form_field = some k }

-- The run from the item `n` of a form on; the items before it stay.
unfoldable pub send_from : ℕ → ℕ → List FormItem → FormRun
unfolding send_items
send_from k zero items = send_items k items
send_from k (suc n) [] = send_items k []
send_from k (suc n) (i ∷ items) =
    let rest = send_from (suc k) n items in record rest { items = i ∷ rest.items }
