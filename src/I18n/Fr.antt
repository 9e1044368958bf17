-- ===== src/I18n/Fr.antt =====
-- The bundle of web/src/i18n/fr.ts.
use pier_s3_gateway.Prelude.{[], ◌∷◌}
use pier_s3_gateway.I18n.{Bundle}

unfoldable pub bundle : Bundle
bundle =
    (
      "common",
      ("appName", "Pier S3")
          ∷ ("nativeName", "Français")
          ∷ ("size", "Taille")
          ∷ ("name", "Nom")
          ∷ ("lastModified", "Dernière modification")
          ∷ ("actions", "Actions")
          ∷ ("cancel", "Annuler")
          ∷ ("delete", "Supprimer")
          ∷ ("download", "Télécharger")
          ∷ ("info", "Informations")
          ∷ ("retry", "Réessayer")
          ∷ ("loadMore", "Charger plus")
          ∷ ("search", "Rechercher par nom...")
          ∷ ("empty", "Rien ici pour l'instant")
          ∷ ("downloadFile", "Télécharger {{name}}")
          ∷ ("moreActions", "Plus d'actions pour {{name}}")
          ∷ ("openFolder", "Ouvrir le dossier {{name}}")
          ∷ ("showInfo", "Afficher les informations de {{name}}")
          ∷ ("objects", "{{count}} objets")
          ∷ ("objects_one", "{{count}} objet")
          ∷ ("objects_other", "{{count}} objets")
          ∷ ("dash", "-")
          ∷ ("language", "Langue")
          ∷ [],
    )
    ∷ (
      "nav",
      ("buckets", "Buckets")
          ∷ ("allBuckets", "Tous les buckets")
          ∷ ("menu", "Ouvrir le menu")
          ∷ ("resize", "Redimensionner la barre latérale")
          ∷ [],
    )
    ∷ (
      "theme",
      ("label", "Thème") ∷ ("system", "Système") ∷ ("light", "Clair") ∷ ("dark", "Sombre") ∷ [],
    )
    ∷ (
      "auth",
      ("title", "Pier S3")
          ∷ ("subtitle", "Connectez-vous pour accéder à votre stockage.")
          ∷ ("signIn", "Se connecter avec Keycloak")
          ∷ ("logout", "Se déconnecter")
          ∷ [],
    )
    ∷ (
      "buckets",
      ("title", "Buckets")
          ∷ ("readWrite", "R/W")
          ∷ ("read", "R")
          ∷ ("writeOnly", "W")
          ∷ ("access", "Accès")
          ∷ ("quotaUsage", "{{used}} sur {{quota}} utilisés")
          ∷ [],
    )
    ∷ (
      "browser",
      ("upload", "Importer")
          ∷ ("dropHint", "Glissez des fichiers ici ou cliquez pour sélectionner")
          ∷ ("dropSubHint", "Vos fichiers seront importés dans ce dossier")
          ∷ ("deleteTitle", "Confirmation de suppression")
          ∷ ("deleteConfirm", "Supprimer le fichier « {{name}} » ?")
          ∷ (
            "searchTruncated",
            "La recherche ne couvre que les objets chargés. Cliquez sur « Charger plus » pour élargir la sélection.",
          )
          ∷ ("emptyTitle", "Ce dossier est vide")
          ∷ ("emptyHint", "Importez des fichiers pour commencer")
          ∷ ("writeOnlyTitle", "Bucket en envoi seul")
          ∷ (
            "writeOnlyHint",
            "Vous pouvez importer des fichiers ici, mais le listage et le téléchargement ne sont pas autorisés pour votre niveau d'accès.",
          )
          ∷ [],
    )
    ∷ (
      "meta",
      ("title", "Métadonnées de l'objet")
          ∷ ("key", "Clé")
          ∷ ("contentType", "Content-Type")
          ∷ ("size", "Taille")
          ∷ ("etag", "ETag")
          ∷ ("lastModified", "Dernière modification")
          ∷ [],
    )
    ∷ (
      "preview",
      ("title", "Aperçu")
          ∷ ("open", "Aperçu de {{name}}")
          ∷ ("unsupported", "L'aperçu n'est pas disponible pour ce type de fichier")
          ∷ ("tooLarge", "Le fichier est trop volumineux pour l'aperçu")
          ∷ ("downloadToView", "Téléchargez-le pour le consulter")
          ∷ ("failed", "Échec du chargement de l'aperçu")
          ∷ ("modeRendered", "Rendu")
          ∷ ("modeSource", "Source")
          ∷ ("modeTable", "Tableau")
          ∷ ("modeFormatted", "Formaté")
          ∷ ("tableTruncated", "Fichier volumineux : le tableau de l'aperçu est tronqué")
          ∷ [],
    )
    ∷ ("messages", ("uploaded", "{{name}} importé") ∷ ("deleted", "Fichier supprimé") ∷ [])
    ∷ (
      "errors",
      ("generic", "Erreur")
          ∷ ("loadBuckets", "Échec du chargement des buckets")
          ∷ ("loadObjects", "Échec du chargement des objets")
          ∷ ("loadMore", "Échec du chargement supplémentaire")
          ∷ ("loadMeta", "Échec du chargement des métadonnées")
          ∷ ("deleteFailed", "Échec de la suppression")
          ∷ ("downloadFailed", "Échec du téléchargement")
          ∷ ("uploadFailed", "Échec de l'import de {{name}}")
          ∷ ("forbidden", "Vous n'avez pas l'autorisation pour cette opération")
          ∷ [],
    )
    ∷ []
