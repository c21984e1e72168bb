-- ===== src/Ast/Walk/Tests.antt =====
-- Tests for walks and for the JSON text of a tree.
use sqrl.Prelude.{true, [], ◌∷◌, none, ok, err, failed, ◌≡◌, refl}
use sqrl.Value.{boolean}
use sqrl.Ast.{Ast, constant, feature, slot, call, rule, list_comprehension, cons, nil}
use sqrl.Ast.Walk.{ast_slot_names, contains_iterator, json_ast}

abbrev tree : Ast
tree = call "f" (cons (feature "A") (cons (slot "s") (cons (feature "A") nil)))

names_test : ast_slot_names tree ≡ "A" ∷ "s" ∷ []
unfolding ast_slot_names
names_test = refl

iterator_test :
    contains_iterator (list_comprehension (feature "A") (feature "B") "x" (constant (boolean true)))
    ≡ true
unfolding contains_iterator
iterator_test = refl

json_test :
    json_ast (λ _. "v") (call "f" (cons (feature "A") nil))
    ≡ ok "{\"type\":\"call\",\"args\":[{\"type\":\"feature\",\"value\":v}],\"func\":v}"
unfolding json_ast
json_test = refl

rule_test :
    json_ast (λ _. "v") (rule "R" none (feature "A") "")
    ≡ err (failed "Unserialized key on rule: description")
unfolding json_ast
rule_test = refl
