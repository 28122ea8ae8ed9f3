-- ===== src/Json/Printer.antt =====
-- `json.dumps(value, separators=(",", ":"))`. Each part is written in front of what follows it.
use secure_vault.Prelude.{[], ◌∷◌, ◌++◌, Text, codes}
use secure_vault.Json.{
  Value, Items, Fields, null, true_, false_, number, string, array, object, nil, cons, end, field,
}
use secure_vault.Json.Strings.{quote}
use secure_vault.Json.Units.{literal}

unfoldable mutual
  pub print : Value → Text → Text
  print null rest = codes "null" ++ rest
  print true_ rest = codes "true" ++ rest
  print false_ rest = codes "false" ++ rest
  print (number lexeme) rest = lexeme ++ rest
  print (string text) rest = quote ∷ literal text rest
  print (array nil) rest = b'[' ∷ b']' ∷ rest
  print (array (cons v vs)) rest = b'[' ∷ print v (print_items vs rest)
  print (object end) rest = b'{' ∷ b'}' ∷ rest
  print (object (field k v fs)) rest =
      b'{' ∷ quote ∷ literal k (b':' ∷ print v (print_fields fs rest))

  -- The items after the first one.
  pub print_items : Items → Text → Text
  print_items nil rest = b']' ∷ rest
  print_items (cons v vs) rest = b',' ∷ print v (print_items vs rest)

  pub print_fields : Fields → Text → Text
  print_fields end rest = b'}' ∷ rest
  print_fields (field k v fs) rest =
      b',' ∷ quote ∷ literal k (b':' ∷ print v (print_fields fs rest))

unfoldable pub dumps : Value → Text
unfolding print
dumps v = print v []
