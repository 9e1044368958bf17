-- ===== src/I18n/It.antt =====
-- The bundle of web/src/i18n/it.ts.
use pier_s3_gateway.Prelude.{[], ◌∷◌}
use pier_s3_gateway.I18n.{Bundle}

unfoldable pub bundle : Bundle
bundle =
    (
      "common",
      ("appName", "Pier S3")
          ∷ ("nativeName", "Italiano")
          ∷ ("size", "Dimensione")
          ∷ ("name", "Nome")
          ∷ ("lastModified", "Ultima modifica")
          ∷ ("actions", "Azioni")
          ∷ ("cancel", "Annulla")
          ∷ ("delete", "Elimina")
          ∷ ("download", "Scarica")
          ∷ ("info", "Informazioni")
          ∷ ("retry", "Riprova")
          ∷ ("loadMore", "Carica altro")
          ∷ ("search", "Cerca per nome...")
          ∷ ("empty", "Ancora niente qui")
          ∷ ("downloadFile", "Scarica {{name}}")
          ∷ ("moreActions", "Altre azioni per {{name}}")
          ∷ ("openFolder", "Apri la cartella {{name}}")
          ∷ ("showInfo", "Mostra informazioni su {{name}}")
          ∷ ("objects", "{{count}} oggetti")
          ∷ ("objects_one", "{{count}} oggetto")
          ∷ ("objects_other", "{{count}} oggetti")
          ∷ ("dash", "-")
          ∷ ("language", "Lingua")
          ∷ [],
    )
    ∷ (
      "nav",
      ("buckets", "Bucket")
          ∷ ("allBuckets", "Tutti i bucket")
          ∷ ("menu", "Apri menu")
          ∷ ("resize", "Ridimensiona la barra laterale")
          ∷ [],
    )
    ∷ (
      "theme",
      ("label", "Tema") ∷ ("system", "Sistema") ∷ ("light", "Chiaro") ∷ ("dark", "Scuro") ∷ [],
    )
    ∷ (
      "auth",
      ("title", "Pier S3")
          ∷ ("subtitle", "Accedi per usare il tuo archivio.")
          ∷ ("signIn", "Accedi con Keycloak")
          ∷ ("logout", "Esci")
          ∷ [],
    )
    ∷ (
      "buckets",
      ("title", "Bucket")
          ∷ ("readWrite", "R/W")
          ∷ ("read", "R")
          ∷ ("writeOnly", "W")
          ∷ ("access", "Accesso")
          ∷ ("quotaUsage", "{{used}} di {{quota}} in uso")
          ∷ [],
    )
    ∷ (
      "browser",
      ("upload", "Carica")
          ∷ ("dropHint", "Trascina i file qui o fai clic per selezionare")
          ∷ ("dropSubHint", "I tuoi file verranno caricati in questa cartella")
          ∷ ("deleteTitle", "Conferma eliminazione")
          ∷ ("deleteConfirm", "Eliminare il file \"{{name}}\"?")
          ∷ (
            "searchTruncated",
            "La ricerca copre solo gli oggetti caricati. Fai clic su \"Carica altro\" per ampliare la selezione.",
          )
          ∷ ("emptyTitle", "Questa cartella è vuota")
          ∷ ("emptyHint", "Carica dei file per iniziare")
          ∷ ("writeOnlyTitle", "Bucket solo di caricamento")
          ∷ (
            "writeOnlyHint",
            "Qui puoi caricare file, ma l'elenco e il download non sono consentiti per il tuo livello di accesso.",
          )
          ∷ [],
    )
    ∷ (
      "meta",
      ("title", "Metadati dell'oggetto")
          ∷ ("key", "Chiave")
          ∷ ("contentType", "Content-Type")
          ∷ ("size", "Dimensione")
          ∷ ("etag", "ETag")
          ∷ ("lastModified", "Ultima modifica")
          ∷ [],
    )
    ∷ (
      "preview",
      ("title", "Anteprima")
          ∷ ("open", "Anteprima di {{name}}")
          ∷ ("unsupported", "L'anteprima non è disponibile per questo tipo di file")
          ∷ ("tooLarge", "Il file è troppo grande per l'anteprima")
          ∷ ("downloadToView", "Scaricalo per visualizzarlo")
          ∷ ("failed", "Impossibile caricare l'anteprima")
          ∷ ("modeRendered", "Renderizzato")
          ∷ ("modeSource", "Sorgente")
          ∷ ("modeTable", "Tabella")
          ∷ ("modeFormatted", "Formattato")
          ∷ ("tableTruncated", "File di grandi dimensioni: la tabella in anteprima è troncata")
          ∷ [],
    )
    ∷ ("messages", ("uploaded", "{{name}} caricato") ∷ ("deleted", "File eliminato") ∷ [])
    ∷ (
      "errors",
      ("generic", "Errore")
          ∷ ("loadBuckets", "Impossibile caricare i bucket")
          ∷ ("loadObjects", "Impossibile caricare gli oggetti")
          ∷ ("loadMore", "Impossibile caricare altro")
          ∷ ("loadMeta", "Impossibile caricare i metadati")
          ∷ ("deleteFailed", "Impossibile eliminare")
          ∷ ("downloadFailed", "Impossibile scaricare")
          ∷ ("uploadFailed", "Impossibile caricare {{name}}")
          ∷ ("forbidden", "Non hai i permessi per questa operazione")
          ∷ [],
    )
    ∷ []
